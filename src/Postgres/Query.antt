-- ===== src/Postgres/Query.antt =====
-- auto_workflow/connectors/postgres.py: queries and statements. A timeout stands as its
-- milliseconds; empty parameters are None.
pub mod Drain
use auto_workflow.Base.{
  ℕ, zero, suc, List, [], ◌∷◌, ◌++◌, Bool, true, Option, none, some, Str, codes, decimal, Dict,
}
use mathlib.Core.Option
use auto_workflow.Connectors.{Answer, fails, gives, Call, done, go_on, mapping, ◌>>=◌, op_span}
use auto_workflow.Postgres.{Driver, Client, note, ask, connection, with_cursor}
use auto_workflow.Postgres.Errors.{raise_mapped}

-- The argument `fetch`, with `size`; and what `query` returns.
pub data Fetch : Type 0 where
  fetch_all fetch_one : Fetch
  fetch_many : Option ℕ → Fetch

pub data Fetched (V : Type 0) : Type 0 where
  one_row : Option (Dict V) → Fetched V
  many_rows : List (Dict V) → Fetched V

-- `size or 1`
abbrev pub size_or_one : Option ℕ → ℕ
size_or_one none = 1
size_or_one (some zero) = 1
size_or_one (some (suc n)) = suc n

module _ {W V P : Type 0} (driver : Driver W V P) where
  open driver use {run, execute, executemany, fetchone, fetchmany, fetchall, rowcount}

  -- `_apply_statement_timeout`
  unfoldable pub apply_statement_timeout : ℕ → ℕ → Call (Client W) Bool
  unfolding with_cursor
  apply_statement_timeout conn ms c =
      let sql = codes "SET LOCAL statement_timeout = " ++ decimal ms in
      let (r, c') = ask driver (run conn sql) c in
      elim r [
        | gives b ↦ (gives b, c')
        | fails e ↦ with_cursor driver conn (λ cur. ask driver (execute cur sql none)) c'
      ]

  -- `if timeout is not None: …`
  abbrev pub limited : ℕ → Option ℕ → Call (Client W) Bool
  limited conn timeout c = elim timeout [
    | none ↦ (gives true, c)
    | some ms ↦ apply_statement_timeout conn ms c
  ]

  unfoldable pub fetched : Fetch → ℕ → Call (Client W) (Fetched V)
  fetched fetch_all cur = do rows ← ask driver (fetchall cur); done (many_rows rows)
  fetched fetch_one cur = do row ← ask driver (fetchone cur); done (one_row row)
  fetched (fetch_many size) cur = do
    rows ← ask driver (fetchmany cur (size_or_one size))
    done (many_rows rows)

  -- The span and the mapping of errors around an operation.
  abbrev pub operation : {A : Type 0} → Str → Call (Client W) A → Call (Client W) A
  operation op call c = op_span (note driver) c.name op (mapping raise_mapped call) c

  -- `query`
  unfoldable pub query : Str → Option P → Fetch → Option ℕ → Call (Client W) (Fetched V)
  unfolding connection with_cursor apply_statement_timeout fetched
  query sql params fetch timeout = operation (codes "postgres.query") (
      connection driver (λ conn. do
        t ← limited conn timeout
        with_cursor driver conn
            (λ cur. do b ← ask driver (execute cur sql params); fetched fetch cur)))

  abbrev pub row_of : Fetched V → Option (Dict V)
  row_of (one_row none) = none
  row_of (one_row (some [])) = none
  row_of (one_row (some (e ∷ d))) = some (e ∷ d)
  row_of (many_rows rows) = none

  -- `query_one`
  unfoldable pub query_one : Str → Option P → Option ℕ → Call (Client W) (Option (Dict V))
  unfolding query
  query_one sql params timeout = do row ← query sql params fetch_one timeout; done (row_of row)

  abbrev pub first_value : Option (Dict V) → Option V
  first_value none = none
  first_value (some []) = none
  first_value (some ((k, v) ∷ d)) = some v

  -- `query_value`
  unfoldable pub query_value : Str → Option P → Option ℕ → Call (Client W) (Option V)
  unfolding query
  query_value sql params timeout = do
    row ← query sql params fetch_one timeout
    done (first_value (row_of row))

  -- A statement on a cursor, and the cursor's row count.
  abbrev pub counted_rows : (ℕ → Call W Bool) → Option ℕ → Call (Client W) ℕ
  counted_rows statement timeout = connection driver (λ conn. with_cursor driver conn (λ cur. do
    t ← limited conn timeout
    b ← ask driver (statement cur)
    λ c. (gives (rowcount cur c.world), c)))

  -- `execute`
  unfoldable pub execute_sql : Str → Option P → Option ℕ → Call (Client W) ℕ
  unfolding connection with_cursor apply_statement_timeout
  execute_sql sql params timeout =
      operation (codes "postgres.execute") (counted_rows (λ cur. execute cur sql params) timeout)

  -- `executemany`
  unfoldable pub executemany_sql : Str → List P → Option ℕ → Call (Client W) ℕ
  unfolding connection with_cursor apply_statement_timeout
  executemany_sql sql rows timeout =
      operation (codes "postgres.executemany")
        (counted_rows (λ cur. executemany cur sql rows) timeout)

  abbrev pub in_front : List (Dict V) → Option (List (Dict V)) → Option (List (Dict V))
  in_front batch rest = Option.map (λ rows. batch ++ rows) rest

  abbrev pub unless_empty :
      List (Dict V)
      → Call (Client W) (Option (List (Dict V)))
      → Call (Client W) (Option (List (Dict V)))
  unless_empty [] more = done (some [])
  unless_empty (row ∷ rows) more = do rest ← more; done (in_front (row ∷ rows) rest)

  -- The loop of `query_iter`, drawn to its end, with a bound on its rounds; none if this is too
  -- small.
  unfoldable pub drain : ℕ → ℕ → ℕ → Call (Client W) (Option (List (Dict V)))
  drain zero cur size = done none
  drain (suc fuel) cur size = do
    batch ← ask driver (fetchmany cur size)
    unless_empty batch (drain fuel cur size)

  -- `query_iter`
  unfoldable pub query_iter :
      ℕ → Str → Option P → ℕ → Option ℕ → Call (Client W) (Option (List (Dict V)))
  unfolding connection with_cursor apply_statement_timeout drain
  query_iter fuel sql params size timeout = operation (codes "postgres.query_iter") (
      connection driver (λ conn. do
        t ← limited conn timeout
        with_cursor driver conn
            (λ cur. do b ← ask driver (execute cur sql params); drain fuel cur size)))
