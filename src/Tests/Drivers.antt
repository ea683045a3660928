-- ===== src/Tests/Drivers.antt =====
-- The Postgres client with a driver that answers everything but, where `refusing` says so, BEGIN.
use auto_workflow.Base.{
  ℕ, ◌≡◌, refl, Bool, true, false, none, some, List, [], ◌∷◌, ◌++◌, Str, codes, Dict, arith, length,
  take, drop,
}
use auto_workflow.Connectors.{permanent, Error, error, Call, Answer, gives, fails}
use auto_workflow.Postgres.{Driver, Client, transaction}
use auto_workflow.Postgres.Text.{begin_sql}
use auto_workflow.Postgres.Errors.{raise_mapped, remapped, raise_mapped-raise_mapped}
use auto_workflow.Postgres.Transaction.{transaction_outermost, transaction_leaks}
use auto_workflow.Postgres.Query.{drain}
use auto_workflow.Postgres.Query.Drain.{drain-rest}
use auto_workflow.Postgres.Copy.{copy_file}
use auto_workflow.Postgres.Copy.Whole.{copy_file-written}

-- The rows that a cursor has left, what a copy has written, and the file that a copy is read into.
record World : Type 0 where
  rows : List (Dict ℕ)
  bytes : Str
  out : Str

abbrev refusal : Error
refusal = error permanent (codes "connection already closed")

abbrev answer_run : Bool → World → Answer Bool × World
answer_run true w = (fails refusal, w)
answer_run false w = (gives true, w)

abbrev driver_of : Bool → Driver World ℕ ℕ
driver_of refusing = record {
  make_pool = λ conninfo kwargs opened w. (gives true, w);
  close_pool = λ w. w;
  enter = λ w. (gives 1, w);
  leave = λ conn e w. (gives true, w);
  dict_rows = λ conn w. w;
  run = λ conn sql w. answer_run refusing w;
  cursor = λ conn w. (gives 5, w);
  close_cursor = λ cur w. w;
  execute = λ cur sql params w. (gives true, w);
  executemany = λ cur sql rows w. (gives true, w);
  fetchone = λ cur w. (gives none, w);
  fetchmany = λ cur n w. (gives (take n w.rows), record w { rows = drop n w.rows });
  fetchall = λ cur w. (gives w.rows, record w { rows = [] });
  rowcount = λ cur w. length w.rows;
  copy = λ cur stmt w. (gives 9, w);
  end_copy = λ cp e w. (gives true, w);
  copy_write = λ cp s w. (gives true, record w { bytes = w.bytes ++ s });
  has_read = λ cp. true;
  copy_read = λ cp sized w. (gives [], w);
  copy_next = λ cp w. (gives none, w);
  copied = λ cp w. length w.bytes;
  file_write = λ s w. (gives true, record w { out = w.out ++ s });
}

abbrev row_of : ℕ → Dict ℕ
row_of n = (codes "id", n) ∷ []

abbrev world : World
world = record { rows = row_of 1 ∷ row_of 2 ∷ row_of 3 ∷ []; bytes = []; out = [] }

abbrev client : Client World
client = record {
  name = codes "postgres";
  cfg = [];
  pool = true;
  closed = false;
  tx_stack = [];
  sent = [];
  metrics = [];
  world = world;
}

abbrev default_begin : Str
default_begin = begin_sql (codes "read_committed") false false

-- A body that fails.
abbrev failing : Call (Client World) ℕ
failing c = (fails refusal, c)

raise_mapped-raise_mapped_example :
    raise_mapped (raise_mapped (error permanent (codes "Lock TIMEOUT")))
    ≡ remapped (raise_mapped (error permanent (codes "Lock TIMEOUT"))).kind
raise_mapped-raise_mapped_example =
    raise_mapped-raise_mapped (error permanent (codes "Lock TIMEOUT"))

transaction_outermost_example :
    ((transaction (driver_of false) (codes "read_committed") false false failing client).1.sent
      ≡ (1, default_begin) ∷ (1, codes "ROLLBACK") ∷ [])
    × ((transaction
          (driver_of false)
          (codes "read_committed")
          false
          false
          failing
          client).1.tx_stack
        ≡ [])
transaction_outermost_example =
    transaction_outermost (driver_of false) (codes "read_committed") false false failing client 1
      world world true refl refl refl refl

transaction_leaks_example :
    ((transaction (driver_of true) (codes "read_committed") false false failing client).1.sent
      ≡ (1, default_begin) ∷ [])
    × ((transaction (driver_of true) (codes "read_committed") false false failing client).1.tx_stack
        ≡ 1 ∷ [])
transaction_leaks_example =
    transaction_leaks (driver_of true) (codes "read_committed") false false failing client 1 world
      world refusal refl refl refl refl

drain-rest_example :
    (drain (driver_of false) 4 5 2 client).0 ≡ gives (some (row_of 1 ∷ row_of 2 ∷ row_of 3 ∷ []))
drain-rest_example =
    drain-rest (driver_of false) 5 2 (λ w. w.rows)
      (λ w. (record w { rows = drop 2 w.rows }, refl, refl)) 4 client (omega arith) (omega arith)

copy_file-written_example :
    ((copy_file (driver_of false) 4 9 (codes "a,b") client).0 ≡ gives true)
    × ((copy_file (driver_of false) 4 9 (codes "a,b") client).1.world.bytes ≡ codes "a,b")
copy_file-written_example =
    copy_file-written (driver_of false) 9 (λ w. w.bytes)
      (λ s w. (true, record w { bytes = w.bytes ++ s }, refl, refl)) 4 (codes "a,b") client
      (omega arith)
