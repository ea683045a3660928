-- ===== src/Postgres/Copy.antt =====
-- auto_workflow/connectors/postgres.py: `copy_from` and `copy_to`. Each loop has a bound on its
-- rounds, and gives false where this is too small.
pub mod Whole
use auto_workflow.Base.{
  ℕ, zero, suc, List, [], ◌∷◌, ◌++◌, Bool, true, false, Option, none, some, if◌then◌else◌, Str,
  codes, take, drop,
}
use auto_workflow.Connectors.{
  Kind, type_error, Error, Answer, fails, gives, Call, done, go_on, mapping, ◌>>=◌, op_span,
}
use auto_workflow.Postgres.{
  Driver, Client, ask, is_type_error, exception_of, left, connection, with_cursor,
}
use auto_workflow.Postgres.Query.{limited, operation}

-- What `copy_from` reads: a file, as the bytes it has left, or an iterable of chunks.
pub data Source : Type 0 where
  file : Str → Source
  chunks : List Str → Source

-- `", ".join(columns)`
unfoldable pub comma_joined : Str → List Str → Str
comma_joined comma [] = []
comma_joined comma (s ∷ []) = s
comma_joined comma (s ∷ (t ∷ ss)) = s ++ comma ++ comma_joined comma (t ∷ ss)

-- `cols`, where no columns and an empty list are alike
unfoldable pub column_list : List Str → Str
unfolding comma_joined
column_list [] = []
column_list (s ∷ ss) = codes " (" ++ comma_joined (codes ", ") (s ∷ ss) ++ codes ")"

-- `stmt`, for FROM STDIN or TO STDOUT
unfoldable pub copy_statement : Str → Str → List Str → Str → Str → Str
unfolding column_list
copy_statement direction table columns format delimiter =
    codes "COPY "
    ++ table
    ++ column_list columns
    ++ direction
    ++ codes " WITH (FORMAT "
    ++ format
    ++ codes ", DELIMITER '"
    ++ delimiter
    ++ codes "')"

module _ {W V P : Type 0} (driver : Driver W V P) where
  open driver use {copy, end_copy, copy_write, has_read, copy_read, copy_next, copied, file_write}

  abbrev pub unless_blank : Str → Call (Client W) Bool → Call (Client W) Bool
  unless_blank [] more = done true
  unless_blank (x ∷ s) more = more

  -- `chunk = file_or_iter.read(8192)` and `cp.write(chunk)`, until a chunk is empty
  unfoldable pub copy_file : ℕ → ℕ → Str → Call (Client W) Bool
  copy_file zero cp bytes = done false
  copy_file (suc fuel) cp bytes =
      unless_blank (take 8192 bytes)
        (do b ← ask driver (copy_write cp (take 8192 bytes)); copy_file fuel cp (drop 8192 bytes))

  -- `for chunk in file_or_iter: cp.write(chunk)`
  unfoldable pub copy_chunks : ℕ → List Str → Call (Client W) Bool
  copy_chunks cp [] = done true
  copy_chunks cp (s ∷ ss) = do b ← ask driver (copy_write cp s); copy_chunks cp ss

  abbrev pub copy_source : ℕ → Source → ℕ → Call (Client W) Bool
  copy_source fuel (file bytes) cp = copy_file fuel cp bytes
  copy_source fuel (chunks ss) cp = copy_chunks cp ss

  -- `with cur.copy(stmt) as cp`
  unfoldable pub with_copy : {A : Type 0} → ℕ → Str → (ℕ → Call (Client W) A) → Call (Client W) A
  with_copy cur stmt body c = go_on (ask driver (copy cur stmt) c) (λ cp c1.
      let (r, c2) = body cp c1 in
      let (l, c3) = ask driver (end_copy cp (exception_of driver r)) c2 in (left driver r l, c3))

  -- What `copy_from` and `copy_to` share; the count where the loop came to its end.
  unfoldable pub copying :
      Str → Str → Option ℕ → (ℕ → Call (Client W) Bool) → Call (Client W) (Option ℕ)
  unfolding connection with_cursor with_copy
  copying op stmt timeout body = operation driver op (
      connection driver (λ conn. do
        t ← limited driver conn timeout
        with_cursor driver conn (λ cur. with_copy cur stmt (λ cp. do
          complete ← body cp
          λ c. (gives (if complete then some (copied cp c.world) else none), c)))))

  -- `copy_from`
  unfoldable pub copy_from :
      ℕ → Str → Source → List Str → Str → Str → Option ℕ → Call (Client W) (Option ℕ)
  unfolding copying copy_statement copy_file copy_chunks
  copy_from fuel table source columns format delimiter timeout =
      copying (codes "postgres.copy_from")
        (copy_statement (codes " FROM STDIN") table columns format delimiter) timeout
        (copy_source fuel source)

  -- The loop of `copy_to` on `cp.read()`, or on `cp.read(8192)`
  unfoldable pub read_out : ℕ → ℕ → Bool → Call (Client W) Bool
  read_out zero cp sized = done false
  read_out (suc fuel) cp sized = do
    chunk ← ask driver (copy_read cp sized)
    unless_blank chunk (do b ← ask driver (file_write chunk); read_out fuel cp sized)

  -- `except TypeError`
  abbrev pub on_type_error : Answer Bool × Client W → Call (Client W) Bool → Answer Bool × Client W
  on_type_error (gives b, c) otherwise = (gives b, c)
  on_type_error (fails e, c) otherwise = if is_type_error e.kind then otherwise c else (fails e, c)

  abbrev pub unless_ended : Option Str → (Str → Call (Client W) Bool) → Call (Client W) Bool
  unless_ended none more = done true
  unless_ended (some chunk) more = more chunk

  -- `for chunk in cp: file_like.write(chunk)`
  unfoldable pub iterate_out : ℕ → ℕ → Call (Client W) Bool
  iterate_out zero cp = done false
  iterate_out (suc fuel) cp = do
    chunk ← ask driver (copy_next cp)
    unless_ended chunk (λ s. do b ← ask driver (file_write s); iterate_out fuel cp)

  unfoldable pub copy_out : ℕ → ℕ → Call (Client W) Bool
  unfolding read_out iterate_out
  copy_out fuel cp c =
      if has_read cp
      then on_type_error (read_out fuel cp false c) (read_out fuel cp true)
      else iterate_out fuel cp c

  -- `copy_to`
  unfoldable pub copy_to : ℕ → Str → List Str → Str → Str → Option ℕ → Call (Client W) (Option ℕ)
  unfolding copying copy_statement copy_out
  copy_to fuel table columns format delimiter timeout =
      copying (codes "postgres.copy_to")
        (copy_statement (codes " TO STDOUT") table columns format delimiter) timeout (copy_out fuel)
