-- ===== src/Adls/Operations.antt =====
-- auto_workflow/connectors/adls2.py: the operations of the client on files, directories and
-- containers.
use auto_workflow.Base.{
  ℕ, suc, ◌-◌, List, [], ◌∷◌, ◌++◌, Bool, true, false, Option, none, some, if◌then◌else◌, nat_eq,
  leb, any, Str, codes,
}
use auto_workflow.Connectors.{
  resource_exists, resource_not_found, type_error, Answer, fails, gives, Call, done, mapping, ◌>>=◌,
  op_span,
}
use auto_workflow.Adls.{
  Azure, Client, Upload, PathItem, PathInfo, note, ask, either, service, filesystem_client,
}
use auto_workflow.Adls.Errors.{map_error}

module _ {W : Type 0} (azure : Azure W) where
  open azure use {
    file_client, directory_client, upload_data, download_file, get_paths, file_properties,
    directory_properties, delete_file, delete_directory, delete_this_directory, create_directory,
    service_creates, create_file_system, file_system_creates, create_this,
  }

  -- The span and the mapping of errors around an operation.
  abbrev pub operation : {A : Type 0} → Str → Call (Client W) A → Call (Client W) A
  operation op call c = op_span (note azure) c.name op (mapping map_error call) c

  abbrev pub on_file : {A : Type 0} → Str → Str → (ℕ → Call (Client W) A) → Call (Client W) A
  on_file container path body = do
    fs ← filesystem_client azure container
    fc ← ask azure (file_client fs path)
    body fc

  -- `upload_bytes`
  unfoldable pub upload_bytes : Str → Str → Str → Upload → Call (Client W) Str
  unfolding filesystem_client
  upload_bytes container path data_bytes options =
      operation (codes "adls2.upload_bytes")
        (on_file container path (λ fc. ask azure (upload_data fc data_bytes options)))

  -- `length`
  unfoldable pub range_length : Option ℕ → Option ℕ → Option ℕ
  range_length (some start) (some stop) = if leb start stop then some (suc stop - start) else none
  range_length (some start) none = none
  range_length none stop = none

  -- `download_bytes`
  unfoldable pub download_bytes : Str → Str → Option ℕ → Option ℕ → Call (Client W) Str
  unfolding filesystem_client range_length
  download_bytes container path start stop =
      operation (codes "adls2.download_bytes") (
        on_file container path (λ fc. ask azure (download_file fc start (range_length start stop))))

  unfoldable pub path_infos : Str → List PathItem → List PathInfo
  path_infos container [] = []
  path_infos container (p ∷ ps) =
      (record {
        container = container;
        path = p.name;
        is_directory = p.is_directory;
        size = p.size;
        last_modified = p.last_modified;
        etag = p.etag;
      })
      ∷ path_infos container ps

  -- `list_paths`, drawn to its end
  unfoldable pub list_paths : Str → Option Str → Bool → Call (Client W) (List PathInfo)
  unfolding filesystem_client path_infos
  list_paths container prefix recursive = operation (codes "adls2.list_paths") (do
    fs ← filesystem_client azure container
    ps ← ask azure (get_paths fs prefix recursive)
    done (path_infos container ps))

  -- `path.rsplit("/", 1)[-1]`
  unfoldable pub last_segment : Str → Str → Str
  last_segment seg [] = seg
  last_segment seg (x ∷ path) =
      if nat_eq x 47 then last_segment [] path else last_segment (seg ++ x ∷ []) path

  abbrev pub answers_true : Answer Bool → Bool
  answers_true (gives b) = b
  answers_true (fails e) = false

  -- The look for a directory, if the path looks like one.
  unfoldable pub look_for_directory : ℕ → Str → Call (Client W) Bool
  unfolding last_segment
  look_for_directory fs path =
      if any (λ x. nat_eq x 46) (last_segment [] path) then done false else (do
        dc ← ask azure (directory_client fs path)
        λ c. let (r, c1) = ask azure (directory_properties dc) c in (gives (answers_true r), c1))

  -- The two looks of `exists`; an exception of get_file_properties or get_directory_properties is
  -- suppressed.
  unfoldable pub look_at : ℕ → Str → ℕ → Call (Client W) Bool
  unfolding look_for_directory
  look_at fs path fc c =
      let (r, c1) = ask azure (file_properties fc) c in
      if answers_true r then (gives true, c1) else look_for_directory fs path c1

  unfoldable pub look : Str → Str → Call (Client W) Bool
  unfolding filesystem_client look_at
  look container path = do
    fs ← filesystem_client azure container
    fc ← ask azure (file_client fs path)
    look_at fs path fc

  abbrev pub unless_missing : Answer Bool → Answer Bool
  unless_missing (gives b) = gives b
  unless_missing (fails e) = elim e.kind [
    | resource_not_found ↦ gives false
    | _ ↦ fails (map_error e)
  ]

  -- `exists`
  unfoldable pub exists_path : Str → Str → Call (Client W) Bool
  unfolding look
  exists_path container path c =
      op_span (note azure) c.name (codes "adls2.exists")
        (λ c1. let (r, c2) = look container path c1 in (unless_missing r, c2)) c

  abbrev pub on_type_error : Answer Bool × Client W → Call (Client W) Bool → Answer Bool × Client W
  on_type_error (gives b, c) otherwise = (gives b, c)
  on_type_error (fails e, c) otherwise = elim e.kind [ type_error ↦ otherwise c | _ ↦ (fails e, c) ]

  -- `delete_path`
  unfoldable pub delete_path : Str → Str → Bool → Call (Client W) Bool
  unfolding filesystem_client
  delete_path container path recursive = operation (codes "adls2.delete_path") (do
    fs ← filesystem_client azure container
    either azure (ask azure (delete_file fs path)) (λ c.
        on_type_error (ask azure (delete_directory fs path recursive) c)
          (do dc ← ask azure (directory_client fs path); ask azure (delete_this_directory dc))))

  abbrev pub unless_there : Bool → Answer Bool → Answer Bool
  unless_there exist_ok (gives b) = gives b
  unless_there true (fails e) = elim e.kind [
    | resource_exists ↦ gives true
    | _ ↦ fails (map_error e)
  ]
  unless_there false (fails e) = fails (map_error e)

  abbrev pub creating : Str → Bool → Call (Client W) Bool → Call (Client W) Bool
  creating op exist_ok call c =
      op_span (note azure) c.name op (λ c1. let (r, c2) = call c1 in (unless_there exist_ok r, c2))
        c

  -- `make_dirs`
  unfoldable pub make_dirs : Str → Str → Bool → Call (Client W) Bool
  unfolding filesystem_client
  make_dirs container path exist_ok =
      creating (codes "adls2.make_dirs") exist_ok
        (do fs ← filesystem_client azure container; ask azure (create_directory fs path))

  -- `create_container`
  unfoldable pub create_container : Str → Bool → Call (Client W) Bool
  unfolding service filesystem_client
  create_container container exist_ok = creating (codes "adls2.create_container") exist_ok (do
    s ← service azure
    (if service_creates then ask azure (create_file_system s container) else (do
      fs ← filesystem_client azure container
      (if file_system_creates
          then either azure (ask azure (create_this fs)) (done true)
          else done true))))
