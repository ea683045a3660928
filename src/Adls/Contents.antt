-- ===== src/Adls/Contents.antt =====
-- auto_workflow/connectors/adls2.py: what is read of what was written, and what `exists` answers.
use auto_workflow.Base.{
  arith, take_of_drop, inl, inr, Bool-cases, codes, [], ◌∷◌, ◌≡◌, refl, ap, ◌∙◌, ℕ, Bool, false,
  Option, none, some, Str, ltb, length, true, ◌&&◌, take, drop, any, nat_eq, leb, if◌then◌else◌,
  suc, ◌-◌,
}
use auto_workflow.Connectors.{
  map_error, inc, metric_name, Error, Answer, fails, gives, Call, op_span,
}
use auto_workflow.Adls.{ask, note, Azure, Client, Upload, filesystem_client, service}
use auto_workflow.Adls.Operations.{
  on_file, look_for_directory, look_at, unless_missing, upload_bytes, download_bytes, range_length,
  look, exists_path, last_segment,
}

-- The bytes that an offset and a length select.
unfoldable pub slice : Option ℕ → Option ℕ → Str → Str
slice none none bytes = bytes
slice (some start) none bytes = drop start bytes
slice none (some n) bytes = take n bytes
slice (some start) (some n) bytes = take n (drop start bytes)

-- A range that the service answers: its offset lies in the file, and it has a length of at least 1,
-- if one is given. Without an offset there is no length.
unfoldable pub in_file : Option ℕ → Option ℕ → Str → Bool
in_file none none bytes = true
in_file none (some n) bytes = false
in_file (some start) none bytes = ltb start (length bytes)
in_file (some start) (some n) bytes = ltb start (length bytes) && ltb 0 n

-- An offset, if there is one, lies in the file.
unfoldable pub starts_in : Option ℕ → Str → Bool
starts_in none bytes = true
starts_in (some start) bytes = ltb start (length bytes)

-- The bytes from start to stop, both included.
unfoldable pub selected : Option ℕ → Option ℕ → Str → Str
selected none stop bytes = bytes
selected (some start) none bytes = drop start bytes
selected (some start) (some stop) bytes =
    if leb start stop then drop start (take (suc stop) bytes) else drop start bytes

module _ {W : Type 0} (azure : Azure W) (container path : Str) (svc fs fc : ℕ)
    (opens : (w : W) → azure.file_system svc container w ≡ (gives fs, w))
    (finds : (w : W) → azure.file_client fs path w ≡ (gives fc, w)) where
  handles :
      {A : Type 0} (body : ℕ → Call (Client W) A) (c : Client W)
      → c.svc ≡ some svc
      → on_file azure container path body c ≡ body fc c
  unfolding filesystem_client service
  handles body c h = rw (h, opens c.world, finds c.world) refl

  module _ (contents : W → Str)
      (stores : (bytes : Str) (options : Upload) (w w' : W) (etag : Str)
        → azure.upload_data fc bytes options w ≡ (gives etag, w')
        → contents w' ≡ bytes)
      (reads : (start n : Option ℕ) (w : W)
        → in_file start n (contents w) ≡ true
        → (azure.download_file fc start n w).0 ≡ gives (slice start n (contents w))) where
    upload_bytes_lem :
        (bytes : Str) (options : Upload) (c : Client W) (etag : Str)
        → c.svc ≡ some svc
        → (upload_bytes azure container path bytes options c).0 ≡ gives etag
        → ((upload_bytes azure container path bytes options c).1.svc ≡ some svc)
          × (contents (upload_bytes azure container path bytes options c).1.world ≡ bytes)
    unfolding upload_bytes op_span
    upload_bytes_lem bytes options c etag h e =
        let c' =
          note azure (inc (metric_name c.name (codes "adls2.upload_bytes") (codes "count")) ∷ [])
            c in
        let same = handles (λ fc'. ask azure (azure.upload_data fc' bytes options)) c' h in
        rw same (h, stored_of _ (azure.upload_data fc bytes options c.world) refl (rw same at e))
      where
        stored_of :
            (f : Error → Error) (o : Answer Str × W)
            → azure.upload_data fc bytes options c.world ≡ o
            → map_error f o.0 ≡ gives etag
            → contents o.1 ≡ bytes
        stored_of f (gives x, w) z q = stores bytes options c.world w x z
        stored_of f (fails x, w) z q = absurd (ground (arith, q))

    download_bytes_lem :
        (start stop : Option ℕ) (c : Client W)
        → c.svc ≡ some svc
        → in_file start (range_length azure start stop) (contents c.world) ≡ true
        → (download_bytes azure container path start stop c).0
          ≡ gives (slice start (range_length azure start stop) (contents c.world))
    unfolding download_bytes op_span
    download_bytes_lem start stop c h inside =
        rw
          (
            handles
                (λ fc'. ask azure (azure.download_file fc' start (range_length azure start stop)))
                (note azure _ c) h,
            reads start (range_length azure start stop) c.world inside,
          )
          refl

    in_file-range_length :
        (start stop : Option ℕ) (bytes : Str)
        → starts_in start bytes ≡ true
        → in_file start (range_length azure start stop) bytes ≡ true
    unfolding in_file range_length starts_in
    in_file-range_length none stop bytes i = refl
    in_file-range_length (some start) none bytes i = i
    in_file-range_length (some start) (some stop) bytes i = elim (Bool-cases (leb start stop)) [
      | inl within ↦ rw (within, in_file) (ground arith)
      | inr beyond ↦ rw (beyond, in_file) i
    ]

    slice-range_length :
        (start stop : Option ℕ) (bytes : Str)
        → slice start (range_length azure start stop) bytes ≡ selected start stop bytes
    unfolding slice range_length selected
    slice-range_length none stop bytes = refl
    slice-range_length (some start) none bytes = refl
    slice-range_length (some start) (some stop) bytes = elim (Bool-cases (leb start stop)) [
      | inl within ↦
          rw (within, slice) (take_of_drop start (suc stop - start) (suc stop) bytes (ground arith))
      | inr beyond ↦ rw (beyond, slice) refl
    ]

    -- If the client has a service whose file holds the bytes of an upload that succeeds and gives
    -- a slice whose offset lies in the file, then after an upload that has succeeded, with or
    -- without overwrite, a download from a start inside the bytes, or without a start, gives the
    -- bytes from start to end, both included, the bytes from start on if there is no end or it
    -- lies before start, and all bytes if there is no start, whatever the end.
    pub download_bytes-upload_bytes :
        (bytes : Str) (options : Upload) (start stop : Option ℕ) (c : Client W) (etag : Str)
        → c.svc ≡ some svc
        → (upload_bytes azure container path bytes options c).0 ≡ gives etag
        → starts_in start bytes ≡ true
        → (download_bytes azure container path start stop
            (upload_bytes azure container path bytes options c).1).0
          ≡ gives (selected start stop bytes)
    download_bytes-upload_bytes bytes options start stop c etag h e inside =
        let (k, f) = upload_bytes_lem bytes options c etag h e in
        download_bytes_lem start stop (upload_bytes azure container path bytes options c).1 k
          (rw f (in_file-range_length start stop bytes inside))
        ∙ ap (λ s. gives (slice start (range_length azure start stop) s)) f
        ∙ ap (λ s. gives s) (slice-range_length start stop bytes)

  look_for_directory_lem :
      (c : Client W) (e : Error) (dc : ℕ) (w w' : W)
      → azure.directory_client fs path c.world ≡ (gives dc, w)
      → azure.directory_properties dc w ≡ (fails e, w')
      → (look_for_directory azure fs path c).0 ≡ gives false
  unfolding look_for_directory
  look_for_directory_lem c e dc w w' d q =
      elim (Bool-cases (any (λ x. nat_eq x 46) (last_segment azure [] path))) [
        | inl dot ↦ rw (dot, look_for_directory) refl
        | inr plain ↦ rw (plain, look_for_directory, d, q) refl
      ]

  look-look_at :
      (c : Client W) → c.svc ≡ some svc → look azure container path c ≡ look_at azure fs path fc c
  unfolding look filesystem_client service
  look-look_at c h = rw (h, opens c.world, finds c.world) refl

  look_at_lem :
      (c : Client W) (e : Error) (w : W)
      → azure.file_properties fc c.world ≡ (fails e, w)
      → look_at azure fs path fc c ≡ look_for_directory azure fs path (record c { world = w })
  unfolding look_at
  look_at_lem c e w p = rw (p) refl

  looked_lem : (r : Answer Bool) → r ≡ gives false → unless_missing azure r ≡ gives false
  looked_lem r e = rw (e) refl

  -- If the client gets the file and directory clients of a path, and the calls for the properties
  -- of both fail, exists answers False, whatever these errors are, also where access is denied or
  -- the service is down.
  pub exists_path_suppresses :
      (c : Client W) (e e' : Error) (dc : ℕ) (w w' w'' : W)
      → c.svc ≡ some svc
      → azure.file_properties fc c.world ≡ (fails e, w)
      → azure.directory_client fs path w ≡ (gives dc, w')
      → azure.directory_properties dc w' ≡ (fails e', w'')
      → (exists_path azure container path c).0 ≡ gives false
  unfolding exists_path op_span
  exists_path_suppresses c e e' dc w w' w'' h p d q =
      let c' =
        note azure (inc (metric_name c.name (codes "adls2.exists") (codes "count")) ∷ []) c in
      looked_lem (look azure container path c').0 (
        ap (λ o. o.0) (look-look_at c' h ∙ look_at_lem c' e w p)
        ∙ look_for_directory_lem (record c' { world = w }) e' dc w' w'' d q)
