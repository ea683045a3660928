-- ===== src/Postgres/Engine/Url.antt =====
-- auto_workflow/connectors/postgres.py: the URL of `sqlalchemy_engine`. `quote_plus` is
-- urllib.parse's, for code points that UTF-8 encodes.
use auto_workflow.Base.{
  ℕ, ◌+◌, List, [], ◌∷◌, ◌++◌, Bool, ◌&&◌, ◌||◌, Option, none, some, if◌then◌else◌, nat_eq, ltb,
  leb, Str, codes, Dict, drop, length,
}
use Prim.Native.Nat.{◌/◌, ◌%◌}
use auto_workflow.Postgres.Errors.{starts_with}
use auto_workflow.Postgres.Text.{setting, setting_or, is_blank, or_else}

abbrev pub between : ℕ → ℕ → ℕ → Bool
between low high c = leb low c && leb c high

-- Letters, digits and `_.-~`
abbrev pub is_unreserved : ℕ → Bool
is_unreserved c =
    between 65 90 c
    || (between 97 122 c
        || (between 48 57 c || (nat_eq c 95 || (nat_eq c 46 || (nat_eq c 45 || nat_eq c 126)))))

abbrev pub hex_digit : ℕ → ℕ
hex_digit n = if ltb n 10 then 48 + n else 55 + n

-- The bytes of a code point.
unfoldable pub utf8 : ℕ → List ℕ
utf8 c =
    if ltb c 128
    then c ∷ []
    else (if ltb c 2048
        then (192 + c / 64) ∷ (128 + c % 64) ∷ []
        else (if ltb c 65536
            then (224 + c / 4096) ∷ (128 + (c / 64) % 64) ∷ (128 + c % 64) ∷ []
            else (240 + c / 262144)
              ∷ (128 + (c / 4096) % 64)
              ∷ (128 + (c / 64) % 64)
              ∷ (128 + c % 64)
              ∷ []))

unfoldable pub percent : List ℕ → Str
percent [] = []
percent (b ∷ bs) = 37 ∷ hex_digit (b / 16) ∷ hex_digit (b % 16) ∷ percent bs

unfoldable pub quote_plus : Str → Str
unfolding utf8 percent
quote_plus [] = []
quote_plus (c ∷ s) =
    (if is_unreserved c then c ∷ [] else (if nat_eq c 32 then codes "+" else percent (utf8 c)))
    ++ quote_plus s

-- The URL, and the DSN for connect_args where there is one.
pub record Target : Type 0 where
  pub url : Str
  pub raw_dsn : Option Str

-- The URL from the single fields
unfoldable pub url_of_fields : Dict Str → Str
unfolding quote_plus
url_of_fields cfg =
    let port = setting_or (codes "port") (codes "5432") cfg in
    let db =
      or_else (or_else (setting (codes "database") cfg) (setting (codes "dbname") cfg))
        (codes "postgres") in
    let user = or_else (setting (codes "user") cfg) (codes "postgres") in
    let password = setting (codes "password") cfg in
    let sslmode = setting (codes "sslmode") cfg in
    let auth =
      quote_plus user ++ (if is_blank password then [] else codes ":" ++ quote_plus password) in
    codes "postgresql+psycopg://"
    ++ auth
    ++ codes "@"
    ++ or_else (setting (codes "host") cfg) (codes "localhost")
    ++ codes ":"
    ++ port
    ++ codes "/"
    ++ db
    ++ (if is_blank sslmode then [] else codes "?sslmode=" ++ quote_plus sslmode)

-- `sqlalchemy_engine` up to the URL and the connect_args
unfoldable pub engine_target : Dict Str → Target
unfolding url_of_fields starts_with
engine_target cfg =
    let dsn = setting (codes "dsn") cfg in
    let fields : Target = record { url = url_of_fields cfg; raw_dsn = none } in
    if is_blank dsn
    then fields
    else (if starts_with (codes "postgresql+psycopg://") dsn
        then record { url = dsn; raw_dsn = none }
        else (if starts_with (codes "postgresql://") dsn
            then record {
              url = codes "postgresql+psycopg://" ++ drop (length (codes "postgresql://")) dsn;
              raw_dsn = none;
            }
            else (if starts_with (codes "postgres://") dsn
                then record {
                  url = codes "postgresql+psycopg://" ++ drop (length (codes "postgres://")) dsn;
                  raw_dsn = some dsn;
                }
                else fields)))
