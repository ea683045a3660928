-- ===== src/Postgres/Errors.antt =====
-- auto_workflow/connectors/postgres.py: `_raise_mapped`, which turns an exception of the driver into
-- one of the connectors'. `str.lower` changes ASCII letters here.
use auto_workflow.Base.{
  ◌≡◌, refl, List, [], ◌∷◌, map, Bool, true, false, ◌&&◌, ◌||◌, Option, none, some, ◌+◌,
  if◌then◌else◌, nat_eq, leb, Str, codes, ◌==◌, any, ℕ,
}
use auto_workflow.Connectors.{Kind, timeout, transient, auth, permanent, other, Error, error}

abbrev pub lower_code : ℕ → ℕ
lower_code c = if leb 65 c && leb c 90 then c + 32 else c

unfoldable pub lower : Str → Str
lower s = map lower_code s

-- `text.startswith(part)`
unfoldable pub starts_with : Str → Str → Bool
starts_with [] text = true
starts_with (x ∷ part) [] = false
starts_with (x ∷ part) (y ∷ text) = nat_eq x y && starts_with part text

-- `part in text`
unfoldable pub contains : Str → Str → Bool
unfolding starts_with
contains part [] = starts_with part []
contains part (y ∷ text) = starts_with part (y ∷ text) || contains part text

abbrev pub lock_phrases : List Str
lock_phrases =
    codes "deadlock"
    ∷ codes "serialization"
    ∷ codes "could not obtain lock"
    ∷ codes "connection reset"
    ∷ []

abbrev pub auth_phrases : List Str
auth_phrases =
    codes "password authentication failed"
    ∷ codes "pg_hba.conf"
    ∷ codes "sasl authentication failed"
    ∷ codes "no pg_hba.conf entry"
    ∷ codes "authentication failed"
    ∷ []

abbrev pub timed_out : Error
timed_out = error timeout (codes "postgres operation timed out")

abbrev pub retryable : Error
retryable = error transient (codes "transient postgres error")

abbrev pub refused : Error
refused = error auth (codes "postgres authentication failed")

abbrev pub broken : Error
broken = error permanent (codes "postgres operation failed")

-- The part that looks at the message.
unfoldable pub by_message : Str → Error
unfolding contains lower
by_message text =
    let msg = lower text in
    if contains (codes "timeout") msg || contains (codes "canceling statement") msg
    then timed_out
    else (if any (λ s. contains s msg) lock_phrases
        then retryable
        else (if any (λ s. contains s msg) auth_phrases then refused else broken))

-- The exception that `_raise_mapped(e)` raises.
unfoldable pub raise_mapped : Error → Error
unfolding by_message
raise_mapped e = elim e.sqlstate [
  | none ↦ by_message e.message
  | some s ↦
      if s == codes "57014"
      then timed_out
      else (if s == codes "40001" || s == codes "40P01" then retryable else by_message e.message)
]

-- What a mapped exception is mapped to.
abbrev pub remapped : Kind → Error
remapped auth = refused
remapped k = broken

-- A mapped error, mapped again.
abbrev Remaps : Error → Type 0
Remaps e = raise_mapped e ≡ remapped e.kind

if-Remaps : (b : Bool) (x y : Error) → Remaps x → Remaps y → Remaps (if b then x else y)
if-Remaps true x y h k = h
if-Remaps false x y h k = k

timed_out-Remaps : Remaps timed_out
unfolding raise_mapped
timed_out-Remaps = refl

retryable-Remaps : Remaps retryable
unfolding raise_mapped
retryable-Remaps = refl

refused-Remaps : Remaps refused
unfolding raise_mapped
refused-Remaps = refl

broken-Remaps : Remaps broken
unfolding raise_mapped
broken-Remaps = refl

by_message-Remaps : (text : Str) → Remaps (by_message text)
unfolding by_message
by_message-Remaps text =
    let msg = lower text in
    if-Remaps (contains (codes "timeout") msg || contains (codes "canceling statement") msg)
      timed_out _ timed_out-Remaps
      (if-Remaps (any (λ s. contains s msg) lock_phrases) retryable _ retryable-Remaps (
        if-Remaps (any (λ s. contains s msg) auth_phrases) refused broken refused-Remaps
          broken-Remaps))

by_state-Remaps :
    (state : Option Str) (text : Str)
    → Remaps
        (raise_mapped (record { kind = other; sqlstate = state; status = none; message = text }))
unfolding raise_mapped
by_state-Remaps none text = by_message-Remaps text
by_state-Remaps (some s) text = if-Remaps (s == codes "57014") timed_out _ timed_out-Remaps (
    if-Remaps (s == codes "40001" || s == codes "40P01") retryable (by_message text)
      retryable-Remaps (by_message-Remaps text))

-- An exception that was mapped already, as by a query in a transaction's body, is mapped again to
-- an AuthError if it was one and to a PermanentError otherwise, also where it was a TimeoutError
-- or a TransientError.
pub raise_mapped-raise_mapped :
    (e : Error) → raise_mapped (raise_mapped e) ≡ remapped (raise_mapped e).kind
unfolding raise_mapped
raise_mapped-raise_mapped e = by_state-Remaps e.sqlstate e.message
