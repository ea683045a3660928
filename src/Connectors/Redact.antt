-- ===== src/Connectors/Redact.antt =====
-- auto_workflow/connectors/utils.py: `redact`.
use auto_workflow.Base.{
  ◌-◌, ◌≡◌, refl, [], ◌∷◌, ◌++◌, Bool, true, false, ◌&&◌, Option, none, some, if◌then◌else◌, nat_eq,
  ltb, Str, codes, length, take, drop,
}

-- A value: None, a `str`, or another one.
pub data Secret : Type 0 where
  nothing : Secret
  string : Str → Secret
  object : Secret

-- `s.startswith(prefix)`
unfoldable pub is_prefix : Str → Str → Bool
is_prefix [] s = true
is_prefix (c ∷ prefix) [] = false
is_prefix (c ∷ prefix) (d ∷ s) = nat_eq c d && is_prefix prefix s

-- `value[-2:]`
abbrev pub last_two : Str → Str
last_two s = drop (length s - 2) s

unfoldable pub redact : Secret → Option Str
unfolding is_prefix
redact nothing = none
redact object = some (codes "***")
redact (string s) =
    if is_prefix (codes "secret://") s
    then some (codes "***")
    else (if ltb 8 (length s)
        then some (take 4 s ++ codes "***" ++ last_two s)
        else some (codes "***"))

-- What stands between the first four and the last two characters does not show.
pub redact_hides :
    (s t : Str)
    → is_prefix (codes "secret://") s ≡ is_prefix (codes "secret://") t
    → ltb 8 (length s) ≡ ltb 8 (length t)
    → take 4 s ≡ take 4 t
    → last_two s ≡ last_two t
    → redact (string s) ≡ redact (string t)
unfolding redact
redact_hides s t p l f b = rw (redact, p, l, f, b) refl
