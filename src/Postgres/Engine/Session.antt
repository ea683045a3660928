-- ===== src/Postgres/Engine/Session.antt =====
-- auto_workflow/connectors/postgres.py: `sqlalchemy_session`. The body of the with block is a function
-- of the session's `execute`.
use auto_workflow.Base.{◌≡◌, refl, ℕ, Bool, if◌then◌else◌, Str, Dict}
use auto_workflow.Connectors.{Answer, fails, gives, Call, ◌>>=◌}
use auto_workflow.Postgres.Engine.{Orm, Held, Argument, sqlalchemy_sessionmaker}

-- A statement: a plain `str`, or a clause, which `sqlalchemy.text` makes of one.
pub data Statement : Type 0 where
  plain : Str → Statement
  clause : Str → Statement

-- What is called of a session: `sm()`, `session.execute`, `session.commit` and `session.close`.
-- `replaceable` tells whether the session has an `execute` that can be replaced.
pub record Sessions (W : Type 0) : Type 0 where
  pub make : ℕ → Call W ℕ
  pub replaceable : ℕ → Bool
  pub execute : ℕ → Statement → Call W ℕ
  pub commit : ℕ → Call W ℕ
  pub close : ℕ → Call W ℕ

-- `if isinstance(stmt, str): stmt = sqlalchemy.text(stmt)`
abbrev pub coerced : Statement → Statement
coerced (plain s) = clause s
coerced (clause s) = clause s

module _ {W : Type 0} (orm : Orm W) (sessions : Sessions W) where
  open sessions use {make, replaceable, execute, commit, close}

  abbrev pub on_world : {A : Type 0} → Call W A → Call (Held W) A
  on_world call h = let (r, w) = call h.world in (r, record h { world = w })

  -- `with suppress(Exception)`
  abbrev pub suppressed : {A : Type 0} → Call W A → Held W → Held W
  suppressed call h = record h { world = (call h.world).1 }

  -- `session.execute` in the body
  unfoldable pub exec : ℕ → Statement → Call (Held W) ℕ
  exec s stmt = on_world (execute s (if replaceable s then coerced stmt else stmt))

  module _ {V : Type 0} where
    -- What follows the body.
    unfoldable pub leave_session : ℕ → Answer V × Held W → Answer V × Held W
    leave_session s (gives v, h) = (gives v, suppressed (close s) (suppressed (commit s) h))
    leave_session s (fails e, h) = (fails e, suppressed (close s) h)

    -- `with client.sqlalchemy_session(**kwargs) as session: body`
    unfoldable pub sqlalchemy_session :
        Dict Argument → ((Statement → Call (Held W) ℕ) → Call (Held W) V) → Call (Held W) V
    unfolding exec leave_session sqlalchemy_sessionmaker
    sqlalchemy_session kwargs body = do
      m ← sqlalchemy_sessionmaker orm kwargs
      s ← on_world (make m)
      λ h. leave_session s (body (exec s) h)

    leave_session_lem : (s : ℕ) (r : Answer V × Held W) → (leave_session s r).0 ≡ r.0
    unfolding leave_session
    leave_session_lem s (gives v, h) = refl
    leave_session_lem s (fails e, h) = refl

    -- If a sessionmaker and a session are made, the with block of sqlalchemy_session ends as its
    -- body does, whatever the commit answers: a commit that fails is not reported.
    pub session_hides_commit :
        (kwargs : Dict Argument) (body : (Statement → Call (Held W) ℕ) → Call (Held W) V)
        (h made opened : Held W) (m s : ℕ)
        → sqlalchemy_sessionmaker orm kwargs h ≡ (gives m, made)
        → on_world (make m) made ≡ (gives s, opened)
        → (sqlalchemy_session kwargs body h).0 ≡ (body (exec s) opened).0
    unfolding sqlalchemy_session
    session_hides_commit kwargs body h made opened m s e f =
        rw (sqlalchemy_session, e, f) (leave_session_lem s (body (exec s) opened))
