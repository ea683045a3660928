-- ===== src/Postgres.antt =====
-- auto_workflow/connectors/postgres.py: the client of one thread. psycopg and its pool are the
-- environment, a record of functions on a state of their own.
pub mod Errors
pub mod Text
pub mod Transaction
pub mod Query
pub mod Copy
pub mod Engine
use auto_workflow.Base.{
  ℕ, List, [], ◌∷◌, ◌++◌, Bool, true, false, Option, none, some, if◌then◌else◌, Str, codes, Dict,
  lookup,
}
use auto_workflow.Connectors.{
  Kind, type_error, Error, Answer, fails, gives, Call, done, map_error, mapping, go_on, ◌>>=◌,
  Metric, op_span,
}
use auto_workflow.Postgres.Errors.{raise_mapped}
use auto_workflow.Postgres.Text.{conninfo, begin_sql}

-- What the client calls, on the state W of the world: rows are dicts to V, parameters are P.
pub record Driver (W V P : Type 0) : Type 0 where
  -- ConnectionPool(conninfo, **pool_kwargs), with open=True where the flag says so
  pub make_pool : Str → Dict Str → Bool → Call W Bool
  pub close_pool : W → W
  -- entering and leaving `with pool.connection()`, the exception of the body given
  pub enter : Call W ℕ
  pub leave : ℕ → Option Error → Call W Bool
  -- `conn.row_factory = dict_row`, its exceptions suppressed
  pub dict_rows : ℕ → W → W
  -- conn.execute
  pub run : ℕ → Str → Call W Bool
  -- conn.cursor(), and a cursor's methods
  pub cursor : ℕ → Call W ℕ
  pub close_cursor : ℕ → W → W
  pub execute : ℕ → Str → Option P → Call W Bool
  pub executemany : ℕ → Str → List P → Call W Bool
  pub fetchone : ℕ → Call W (Option (Dict V))
  pub fetchmany : ℕ → ℕ → Call W (List (Dict V))
  pub fetchall : ℕ → Call W (List (Dict V))
  pub rowcount : ℕ → W → ℕ
  -- entering and leaving `with cur.copy(stmt)`, and the methods of a copy: `read()`, or `read(8192)`
  -- where the flag says so, and its iteration
  pub copy : ℕ → Str → Call W ℕ
  pub end_copy : ℕ → Option Error → Call W Bool
  pub copy_write : ℕ → Str → Call W Bool
  pub has_read : ℕ → Bool
  pub copy_read : ℕ → Bool → Call W Str
  pub copy_next : ℕ → Call W (Option Str)
  pub copied : ℕ → W → ℕ
  -- `file_like.write`
  pub file_write : Str → Call W Bool

-- `PostgresClient`: whether there is a pool, the thread's stack of pinned connections, its top
-- first, and, for the theorems, the statements of `transaction` so far.
pub record Client (W : Type 0) : Type 0 where
  pub name : Str
  pub cfg : Dict Str
  pub pool : Bool
  pub closed : Bool
  pub tx_stack : List ℕ
  pub sent : List (ℕ × Str)
  pub metrics : List Metric
  pub world : W

abbrev pub is_type_error : Kind → Bool
is_type_error type_error = true
is_type_error k = false

module _ {W V P : Type 0} (driver : Driver W V P) where
  open driver use {make_pool, enter, leave, close_pool, dict_rows, run, cursor, close_cursor}

  abbrev pub note : List Metric → Client W → Client W
  note ms c = record c { metrics = c.metrics ++ ms }

  abbrev pub put : {A : Type 0} → Client W → Answer A × W → Answer A × Client W
  put c (r, w) = (r, record c { world = w })

  -- A call of the driver.
  abbrev pub ask : {A : Type 0} → Call W A → Call (Client W) A
  ask call c = put c (call c.world)

  -- `pool_kwargs`
  abbrev pub option_of : Str → Dict Str → Dict Str
  option_of k cfg = elim (lookup k cfg) [ none ↦ [] | some v ↦ (k, v) ∷ [] ]

  abbrev pub pool_kwargs : Dict Str → Dict Str
  pool_kwargs cfg =
      option_of (codes "min_size") cfg
      ++ option_of (codes "max_size") cfg
      ++ option_of (codes "timeout") cfg

  -- One attempt at the pool, and what follows a TypeError.
  unfoldable pub try_pool : Dict Str → Bool → (Error → Call (Client W) Bool) → Call (Client W) Bool
  try_pool kwargs opened otherwise c =
      let (r, c') = ask (make_pool (conninfo c.cfg) kwargs opened) c in
      elim r [
        | gives b ↦ (gives true, record c' { pool = true; closed = false })
        | fails e ↦ if is_type_error e.kind then otherwise e c' else (fails e, c')
      ]

  -- `open`
  unfoldable pub open_client : Call (Client W) Bool
  unfolding try_pool
  open_client c =
      if c.pool
      then (gives true, record c { closed = false })
      else try_pool (pool_kwargs c.cfg) true
          (λ e.
            try_pool (pool_kwargs c.cfg) false
              (λ e'. try_pool [] false (λ e'' c'. (fails e'', c'))))
          c

  -- `if self._pool is None: self.open()`
  unfoldable pub ensure_open : Call (Client W) Bool
  ensure_open c = if c.pool then (gives true, c) else open_client c

  -- The exception that `__exit__` raises takes the place of the body's.
  abbrev pub left : {A : Type 0} → Answer A → Answer Bool → Answer A
  left r (fails e) = fails e
  left r (gives b) = r

  abbrev pub exception_of : {A : Type 0} → Answer A → Option Error
  exception_of (fails e) = some e
  exception_of (gives a) = none

  -- Leaving the connection when the body has ended.
  unfoldable pub leaving : {A : Type 0} → ℕ → Answer A × Client W → Answer A × Client W
  leaving conn (r, c) = let (l, c') = ask (leave conn (exception_of r)) c in (left r l, c')

  -- `with self._pool.connection() as conn`
  unfoldable pub pooled : {A : Type 0} → (ℕ → Call (Client W) A) → Call (Client W) A
  unfolding leaving
  pooled body c = go_on (ask enter c) (λ conn c1. leaving conn (body conn c1))

  abbrev pub with_dict_rows : {A : Type 0} → (ℕ → Call (Client W) A) → ℕ → Call (Client W) A
  with_dict_rows body conn c = body conn (record c { world = dict_rows conn c.world })

  -- `with self.connection() as conn`, with a pool: the pinned connection of a transaction, or one of
  -- the pool.
  unfoldable pub on_connection : {A : Type 0} → (ℕ → Call (Client W) A) → Call (Client W) A
  unfolding pooled
  on_connection body c = elim c.tx_stack [
    | [] ↦ pooled (with_dict_rows body) c
    | ◌∷◌ conn (stk → r) ↦ with_dict_rows body conn c
  ]

  -- `connection`
  unfoldable pub connection : {A : Type 0} → (ℕ → Call (Client W) A) → Call (Client W) A
  unfolding ensure_open on_connection
  connection body = do b ← ensure_open; on_connection body

  -- `with conn.cursor() as cur`
  unfoldable pub with_cursor : {A : Type 0} → ℕ → (ℕ → Call (Client W) A) → Call (Client W) A
  with_cursor conn body c =
      let (r, c1) = ask (cursor conn) c in
      elim r [
        | fails e ↦ (fails e, c1)
        | gives cur ↦
            let (a, c2) = body cur c1 in (a, record c2 { world = close_cursor cur c2.world })
      ]

  -- `_tx_push`, `_tx_pop`, `_in_tx`
  abbrev pub tx_push : ℕ → Client W → Client W
  tx_push conn c = record c { tx_stack = conn ∷ c.tx_stack }

  abbrev pub popped : List ℕ → List ℕ
  popped [] = []
  popped (x ∷ stk) = stk

  abbrev pub tx_pop : Client W → Client W
  tx_pop c = record c { tx_stack = popped c.tx_stack }

  -- `conn.execute(sql)` of `transaction`
  unfoldable pub send : ℕ → Str → Call (Client W) Bool
  send conn sql c = put (record c { sent = c.sent ++ (conn, sql) ∷ [] }) (run conn sql c.world)

  -- The end of an outermost transaction: ROLLBACK and the exception again, or COMMIT; the pinned
  -- connection is taken off the stack in any case.
  unfoldable pub finish : {A : Type 0} → ℕ → Answer A × Client W → Answer A × Client W
  unfolding send
  finish conn (fails e, c) =
      let (r, c') = send conn (codes "ROLLBACK") c in (left (fails e) r, tx_pop c')
  finish conn (gives a, c) =
      let (r, c') = send conn (codes "COMMIT") c in (left (gives a) r, tx_pop c')

  -- What an outermost transaction does on its connection.
  unfoldable pub outermost : {A : Type 0} → Str → Call (Client W) A → ℕ → Call (Client W) A
  unfolding finish send
  outermost begin body conn = do
    b ← (λ c. send conn begin (tx_push conn c))
    λ c. finish conn (body c)

  unfoldable pub in_transaction : {A : Type 0} → Str → Call (Client W) A → Call (Client W) A
  unfolding outermost pooled
  in_transaction begin body c = elim c.tx_stack [
    | [] ↦ pooled (outermost begin body) c
    | ◌∷◌ conn (stk → r) ↦ body c
  ]

  -- `with self.transaction(isolation, readonly=…, deferrable=…)` around a body
  unfoldable pub transaction :
      {A : Type 0} → Str → Bool → Bool → Call (Client W) A → Call (Client W) A
  unfolding ensure_open in_transaction
  transaction isolation readonly deferrable body c =
      op_span note c.name (codes "postgres.transaction")
        (mapping raise_mapped
          (do b ← ensure_open; in_transaction (begin_sql isolation readonly deferrable) body))
        c

  -- `close`, its exceptions suppressed; the SQLAlchemy objects are in Postgres/Engine.
  unfoldable pub close_client : Client W → Client W
  close_client c = record c {
    pool = false;
    closed = true;
    world = if c.pool then close_pool c.world else c.world;
  }
