-- ===== src/Adls.antt =====
-- auto_workflow/connectors/adls2.py: the client. The Azure SDK is the environment, a record of
-- functions on a state of their own; a service has get_file_system_client, a download readall. The
-- timeouts, which the methods pass on, are left out.
pub mod Errors
pub mod Operations
pub mod Contents
use auto_workflow.Base.{
  ℕ, suc, ◌+◌, ◌-◌, List, [], ◌∷◌, ◌++◌, Bool, true, false, not, ◌&&◌, Option, none, some,
  if◌then◌else◌, nat_eq, leb, any, Str, codes, Dict, lookup,
}
use auto_workflow.Connectors.{
  Kind, resource_exists, resource_not_found, type_error, Error, Answer, fails, gives, Call, done,
  go_on, mapping, ◌>>=◌, Metric, op_span,
}
use auto_workflow.Adls.Errors.{map_error}

-- The arguments of upload_data besides the data; empty metadata and content types are none.
pub record Upload : Type 0 where
  pub overwrite : Bool
  pub metadata : Option (Dict Str)
  pub content_type : Option Str
  pub chunk_size : Option ℕ

-- An item of get_paths: `name` is its name or else its path, `size` its content_length or else its
-- size.
pub record PathItem : Type 0 where
  pub name : Option Str
  pub is_directory : Bool
  pub size : Option ℕ
  pub last_modified : Option Str
  pub etag : Option Str

-- A dict that list_paths yields.
pub record PathInfo : Type 0 where
  pub container : Str
  pub path : Option Str
  pub is_directory : Bool
  pub size : Option ℕ
  pub last_modified : Option Str
  pub etag : Option Str

-- What the client calls, on the state W of the world; handles are numbers.
pub record Azure (W : Type 0) : Type 0 where
  -- DataLakeServiceClient.from_connection_string(s, **kwargs), DataLakeServiceClient(s), and
  -- DataLakeServiceClient(account_url=…), with the credential and the kwargs where there are some
  pub from_connection_string : Str → Dict ℕ → Call W ℕ
  pub of_connection_string : Str → Call W ℕ
  pub of_account : Str → Option (Option Str) → Option (Dict ℕ) → Call W ℕ
  pub default_credential : Call W Str
  -- `close` of the service, its exceptions suppressed
  pub close : ℕ → W → W
  pub file_system : ℕ → Str → Call W ℕ
  pub file_client : ℕ → Str → Call W ℕ
  pub directory_client : ℕ → Str → Call W ℕ
  -- the etag of the answer, empty if there is none
  pub upload_data : ℕ → Str → Upload → Call W Str
  -- download_file(offset, length).readall()
  pub download_file : ℕ → Option ℕ → Option ℕ → Call W Str
  pub get_paths : ℕ → Option Str → Bool → Call W (List PathItem)
  -- whether the properties are not None
  pub file_properties : ℕ → Call W Bool
  pub directory_properties : ℕ → Call W Bool
  pub delete_file : ℕ → Str → Call W Bool
  pub delete_directory : ℕ → Str → Bool → Call W Bool
  pub delete_this_directory : ℕ → Call W Bool
  pub create_directory : ℕ → Str → Call W Bool
  -- whether a service and a file system have create_file_system, and these calls
  pub service_creates : Bool
  pub create_file_system : ℕ → Str → Call W Bool
  pub file_system_creates : Bool
  pub create_this : ℕ → Call W Bool

-- `ADLS2Client`; the retry and transport arguments of the service stand in `kwargs`.
pub record Client (W : Type 0) : Type 0 where
  pub name : Str
  pub cfg : Dict Str
  pub use_default : Bool
  pub kwargs : Dict ℕ
  pub svc : Option ℕ
  pub closed : Bool
  pub metrics : List Metric
  pub world : W

module _ {W : Type 0} (azure : Azure W) where
  open azure use {
    from_connection_string, of_connection_string, of_account, default_credential, close,
    file_system,
  }

  abbrev pub note : List Metric → Client W → Client W
  note ms c = record c { metrics = c.metrics ++ ms }

  abbrev pub put : {A : Type 0} → Client W → Answer A × W → Answer A × Client W
  put c (r, w) = (r, record c { world = w })

  -- A call of the SDK.
  abbrev pub ask : {A : Type 0} → Call W A → Call (Client W) A
  ask call c = put c (call c.world)

  -- `try: first` and `except Exception: second`, where None is an exception too
  abbrev pub instead : {A : Type 0} → Answer A × Client W → Call (Client W) A → Answer A × Client W
  instead (gives a, c) second = (gives a, c)
  instead (fails e, c) second = second c

  abbrev pub either : {A : Type 0} → Call (Client W) A → Call (Client W) A → Call (Client W) A
  either first second c = instead (first c) second

  -- `cfg.get(k)`, where None and an empty text are alike
  abbrev pub non_empty : Option Str → Option Str
  non_empty none = none
  non_empty (some []) = none
  non_empty (some (x ∷ s)) = some (x ∷ s)

  abbrev pub setting : Str → Dict Str → Option Str
  setting k cfg = non_empty (lookup k cfg)

  abbrev pub first_of : Option Str → Option Str → Option Str
  first_of none b = b
  first_of (some a) b = some a

  abbrev pub text_of : Option Str → Str
  text_of none = []
  text_of (some s) = s

  -- `credential`
  unfoldable pub credential : Call (Client W) (Option Str)
  credential c = elim (setting (codes "credential") c.cfg) [
    | some s ↦ (gives (some s), c)
    | none ↦
        if c.use_default
        then go_on (ask default_credential c) (λ s. done (some s))
        else (gives none, c)
  ]

  -- The three attempts from the account URL.
  unfoldable pub from_account : Option Str → Call (Client W) ℕ
  from_account cred c =
      let url = text_of (setting (codes "account_url") c.cfg) in
      either (ask (of_account url (some cred) (some c.kwargs)))
        (either (ask (of_account url (some cred) none)) (ask (of_account url none none))) c

  -- `open`
  unfoldable pub open_service : Call (Client W) Bool
  unfolding credential from_account
  open_service c = elim c.svc [
    | some s ↦ (gives true, record c { closed = false })
    | none ↦
        let dsn =
          first_of (setting (codes "connection_string") c.cfg)
            (first_of (setting (codes "conn_str") c.cfg) (setting (codes "dsn") c.cfg)) in
        go_on (credential c) (λ cred c1.
          go_on
            (elim dsn [
              | none ↦ from_account cred c1
              | some s ↦
                  either (ask (from_connection_string s c1.kwargs))
                    (either (ask (of_connection_string s)) (from_account cred)) c1
            ])
            (λ svc c2. (gives true, record c2 { svc = some svc; closed = false })))
  ]

  -- `close`
  unfoldable pub close_service : Client W → Client W
  close_service c = record c {
    svc = none;
    closed = true;
    world = elim c.svc [ none ↦ c.world | some s ↦ close s c.world ];
  }

  -- `datalake_service_client`
  unfoldable pub service : Call (Client W) ℕ
  unfolding open_service
  service c = elim c.svc [
    | some s ↦ (gives s, c)
    | none ↦ go_on (open_service c) (λ b c1. elim c1.svc [
      | some s ↦ (gives s, c1)
      | none ↦
          (fails (record { kind = Kind.other; sqlstate = none; status = none; message = [] }), c1)
    ])
  ]

  -- `filesystem_client`
  unfoldable pub filesystem_client : Str → Call (Client W) ℕ
  unfolding service
  filesystem_client container = do s ← service; ask (file_system s container)
