-- ===== src/Tests/Files.antt =====
-- The ADLS2 client with one file in its container.
use auto_workflow.Base.{
  ℕ, Bool, ◌∷◌, ◌||◌, if◌then◌else◌, arith, ◌≡◌, refl, true, false, none, some, [], Str, codes,
  take, drop,
}
use auto_workflow.Connectors.{op_span, auth, error, Error, Answer, gives, fails}
use auto_workflow.Adls.{filesystem_client, service, Azure, Client, Upload}
use auto_workflow.Adls.Operations.{upload_bytes, download_bytes, exists_path}
use auto_workflow.Adls.Contents.{
  selected, slice, in_file, starts_in, download_bytes-upload_bytes, exists_path_suppresses,
}

abbrev denied : Error
denied = error auth (codes "denied")

abbrev null : Str → Bool
null [] = true
null (x ∷ s) = false

-- Without overwrite, a file that is not empty is not replaced.
abbrev stored : ℕ → Str → Upload → Str → Answer Str × Str
stored fc bytes options w =
    if options.overwrite || null w then (gives (codes "v1"), bytes) else (fails denied, w)

stored_lem :
    (bytes : Str) (options : Upload) (w w' : Str) (etag : Str)
    → stored 3 bytes options w ≡ (gives etag, w')
    → w' ≡ bytes
stored_lem bytes options w w' etag e = ground (arith, e)

-- The world is the file's bytes; a range outside of them is refused.
abbrev azure : Azure Str
azure = record {
  from_connection_string = λ s kwargs w. (gives 1, w);
  of_connection_string = λ s w. (gives 1, w);
  of_account = λ url credential kwargs w. (gives 1, w);
  default_credential = λ w. (gives [], w);
  close = λ svc w. w;
  file_system = λ svc container w. (gives 2, w);
  file_client = λ fs path w. (gives 3, w);
  directory_client = λ fs path w. (gives 4, w);
  upload_data = stored;
  download_file =
      λ fc start n w. (if in_file start n w then gives (slice start n w) else fails denied, w);
  get_paths = λ fs prefix recursive w. (gives [], w);
  file_properties = λ fc w. (fails denied, w);
  directory_properties = λ dc w. (fails denied, w);
  delete_file = λ fs path w. (gives true, []);
  delete_directory = λ fs path recursive w. (gives true, []);
  delete_this_directory = λ dc w. (gives true, []);
  create_directory = λ fs path w. (gives true, w);
  service_creates = true;
  create_file_system = λ svc container w. (gives true, w);
  file_system_creates = false;
  create_this = λ fs w. (gives true, w);
}

abbrev store : Client Str
store = record {
  name = codes "adls2";
  cfg = [];
  use_default = true;
  kwargs = [];
  svc = some 1;
  closed = false;
  metrics = [];
  world = [];
}

abbrev options : Upload
options = record { overwrite = true; metadata = none; content_type = none; chunk_size = none }

uploaded :
    (upload_bytes azure (codes "raw") (codes "a.csv") (codes "abcdefg") options store).0
    ≡ gives (codes "v1")
unfolding upload_bytes op_span filesystem_client service
uploaded = refl

download_bytes-upload_bytes_example :
    (download_bytes azure
      (codes "raw")
      (codes "a.csv")
      (some 2)
      (some 4)
      (upload_bytes azure (codes "raw") (codes "a.csv") (codes "abcdefg") options store).1).0
    ≡ gives (codes "cde")
unfolding selected take drop
download_bytes-upload_bytes_example =
    download_bytes-upload_bytes azure (codes "raw") (codes "a.csv") 1 2 3 (λ w. refl) (λ w. refl)
      (λ w. w) stored_lem (λ start n w inside. rw inside refl) (codes "abcdefg") options (some 2)
      (some 4) store (codes "v1") refl uploaded (unfold starts_in in refl)

exists_path_suppresses_example :
    (exists_path azure (codes "raw") (codes "dir") store).0 ≡ gives false
exists_path_suppresses_example =
    exists_path_suppresses azure (codes "raw") (codes "dir") 1 2 3 (λ w. refl) (λ w. refl) store
      denied denied 4 [] [] [] refl refl refl refl
