-- ===== src/Tests/Logs.antt =====
-- A logger with one handler, a bus with one subscriber, and a session whose commit fails.
use auto_workflow.Base.{
  ℕ, suc, ◌+◌, ◌≡◌, refl, true, Option, none, some, [], ◌∷◌, Str, codes, ◌==◌, lookup, mem,
}
use auto_workflow.Exceptions.{ok, raise, runtime_error}
use auto_workflow.Connectors.{fails, gives, Call, error, other, done}
use auto_workflow.Events.{Callback, Subscribers}
use auto_workflow.Logging.Handlers.{
  default_handler, other_handler, Logger, pretty_count, enable_pretty_logging_n,
  pretty_handlers_grow,
}
use auto_workflow.Postgres.Engine.{Orm, Held, sqlalchemy_sessionmaker}
use auto_workflow.Postgres.Engine.Session.{
  Statement, plain, Sessions, exec, sqlalchemy_session, session_hides_commit,
}

abbrev level_named : Str → Option ℕ
level_named s = none

abbrev logger : Logger
logger = record {
  handlers = default_handler ∷ other_handler 1 ∷ [];
  threshold = 30;
  propagate = true;
}

pretty_handlers_grow_example :
    pretty_count level_named 20
      (enable_pretty_logging_n level_named 20 2 (codes "INFO") logger).handlers
    ≡ 2 + pretty_count level_named 20 logger.handlers
pretty_handlers_grow_example = pretty_handlers_grow level_named 20 2 (codes "INFO") logger

-- A callback that counts, and one that raises.
abbrev counts : Callback ℕ ℕ
counts payload n = (ok n, n + payload)

abbrev breaks : Callback ℕ ℕ
breaks payload n = (raise (runtime_error []), n)

abbrev bus : Subscribers ℕ ℕ
bus = (codes "task_started", breaks ∷ []) ∷ []

-- The world counts the statements that were executed.
abbrev orm : Orm ℕ
orm = record {
  create_engine = λ target params. done 1;
  sessionmaker = λ n params. done 2;
  dispose = λ n w. w;
}

abbrev sessions : Sessions ℕ
sessions = record {
  make = λ m. done 3;
  replaceable = λ s. true;
  execute = λ s stmt w. (gives 0, suc w);
  commit = λ s w. (fails (error other (codes "deferred constraint")), w);
  close = λ s. done 0;
}

abbrev held : Held ℕ
held = record { cfg = []; engine = none; maker = some 2; world = 0 }

abbrev insert_one : (Statement → Call (Held ℕ) ℕ) → Call (Held ℕ) ℕ
insert_one execute = execute (plain (codes "insert"))

abbrev made : Held ℕ
made = record { cfg = []; engine = some 1; maker = some 2; world = 0 }

made_by : sqlalchemy_sessionmaker orm [] held ≡ (gives 2, made)
unfolding sqlalchemy_sessionmaker lookup mem ◌==◌
made_by = refl

session_hides_commit_example :
    (sqlalchemy_session orm sessions [] insert_one held).0
    ≡ (insert_one (exec orm sessions 3) made).0
session_hides_commit_example =
    session_hides_commit orm sessions [] insert_one held made made 2 3 made_by refl
