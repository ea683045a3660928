-- ===== src/Postgres/Text.antt =====
-- auto_workflow/connectors/postgres.py: the texts it makes. A configuration is a dict of the texts
-- that `str` gives for its values; an empty text is false in a test.
use auto_workflow.Base.{
  ℕ, List, [], ◌∷◌, ◌++◌, Bool, true, false, ◌&&◌, ◌||◌, not, none, some, if◌then◌else◌, leb, Str,
  codes, ◌==◌, Dict, lookup,
}
use auto_workflow.Postgres.Errors.{lower}

-- `cfg.get(k)`, where None and an empty text are alike
abbrev pub setting : Str → Dict Str → Str
setting k cfg = elim (lookup k cfg) [ none ↦ [] | some v ↦ v ]

abbrev pub setting_or : Str → Str → Dict Str → Str
setting_or k v cfg = elim (lookup k cfg) [ none ↦ v | some w ↦ w ]

abbrev pub is_blank : Str → Bool
is_blank [] = true
is_blank (x ∷ s) = false

-- `a or b`
abbrev pub or_else : Str → Str → Str
or_else [] b = b
or_else (x ∷ a) b = x ∷ a

-- `" ".join(parts)`
unfoldable pub spaced : List Str → Str
spaced [] = []
spaced (s ∷ []) = s
spaced (s ∷ (t ∷ ss)) = s ++ codes " " ++ spaced (t ∷ ss)

-- A part of the text that is left out where the value is empty.
abbrev pub optional_part : Str → Str → List Str
optional_part label v = if is_blank v then [] else (label ++ v) ∷ []

-- `_conninfo`
unfoldable pub conninfo : Dict Str → Str
unfolding spaced
conninfo cfg =
    let dsn = setting (codes "dsn") cfg in
    let host = setting (codes "host") cfg in
    let port = setting_or (codes "port") (codes "5432") cfg in
    let db = or_else (setting (codes "database") cfg) (setting (codes "dbname") cfg) in
    let user = setting (codes "user") cfg in
    if not (is_blank dsn)
    then dsn
    else (if is_blank host || (is_blank db || is_blank user)
        then []
        else spaced (
            (codes "host=" ++ host)
              ∷ (codes "port=" ++ port)
              ∷ (codes "dbname=" ++ db)
              ∷ (codes "user=" ++ user)
              ∷ optional_part (codes "password=") (setting (codes "password") cfg)
            ++ optional_part (codes "sslmode=") (setting (codes "sslmode") cfg)
            ++ optional_part (codes "application_name=") (setting (codes "application_name") cfg)))

-- `str.isspace` of an ASCII character
abbrev pub is_space : ℕ → Bool
is_space c = (leb 9 c && leb c 13) || (leb 28 c && leb c 32)

unfoldable pub lstrip : Str → Str
lstrip [] = []
lstrip (x ∷ s) = if is_space x then lstrip s else x ∷ s

unfoldable pub rstrip : Str → Str
rstrip [] = []
rstrip (x ∷ s) = let rest = rstrip s in if is_blank rest && is_space x then [] else x ∷ rest

-- `iso_map.get(iso_key, "READ COMMITTED")`
unfoldable pub isolation_clause : Str → Str
unfolding lower lstrip rstrip
isolation_clause isolation =
    let key = rstrip (lstrip (lower (or_else isolation (codes "read_committed")))) in
    if key == codes "repeatable_read"
    then codes "REPEATABLE READ"
    else (if key == codes "serializable" then codes "SERIALIZABLE" else codes "READ COMMITTED")

-- `_begin_sql`
unfoldable pub begin_sql : Str → Bool → Bool → Str
unfolding isolation_clause spaced
begin_sql isolation readonly deferrable = spaced (
    codes "BEGIN"
    ∷ (codes "ISOLATION LEVEL " ++ isolation_clause isolation)
    ∷ (if readonly then codes "READ ONLY" else codes "READ WRITE")
    ∷ (if deferrable then codes "DEFERRABLE" ∷ [] else []))
