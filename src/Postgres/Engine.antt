-- ===== src/Postgres/Engine.antt =====
-- auto_workflow/connectors/postgres.py: the SQLAlchemy URL, and the engine and sessionmaker that the
-- client keeps. SQLAlchemy is the environment; engines and sessionmakers stand as numbers. A keyword
-- argument is a flag or another value.
pub mod Url
pub mod Cached
pub mod Session
use auto_workflow.Base.{
  ◌≡◌, ℕ, List, [], ◌∷◌, ◌++◌, Bool, true, false, ◌&&◌, not, Option, none, some, if◌then◌else◌, Str,
  codes, ◌==◌, Dict, lookup, insert, has_key,
}
use auto_workflow.Connectors.{Answer, fails, gives, Call, done, ◌>>=◌}
use auto_workflow.Postgres.Engine.Url.{Target, engine_target}

pub data Argument : Type 0 where
  flag : Bool → Argument
  object : ℕ → Argument

-- What the client calls: create_engine(url, **params), with connect_args, sessionmaker(bind=engine,
-- **kwargs), and `dispose`, its exceptions suppressed.
pub record Orm (W : Type 0) : Type 0 where
  pub create_engine : Target → Dict Argument → Call W ℕ
  pub sessionmaker : ℕ → Dict Argument → Call W ℕ
  pub dispose : ℕ → W → W

-- The client's part: `_sa_engine` and `_sa_sessionmaker`.
pub record Held (W : Type 0) : Type 0 where
  pub cfg : Dict Str
  pub engine : Option ℕ
  pub maker : Option ℕ
  pub world : W

-- `kwargs.setdefault(k, v)`
unfoldable pub set_default : Str → Argument → Dict Argument → Dict Argument
set_default k v kwargs = if has_key k kwargs then kwargs else kwargs ++ (k, v) ∷ []

abbrev pub is_true : Option Argument → Bool
is_true (some (flag b)) = b
is_true (some (object n)) = false
is_true none = false

abbrev pub is_single : Dict Argument → Bool
is_single [] = false
is_single (e ∷ []) = true
is_single (e ∷ (e' ∷ es)) = false

-- `kwargs == {k: True}`
abbrev pub only_flag : Str → Dict Argument → Bool
only_flag k kwargs = is_single kwargs && is_true (lookup k kwargs)

-- `future` is there by then, so that the arguments are not empty.
unfoldable pub is_default : Target → Dict Argument → Bool
is_default target kwargs = elim target.raw_dsn [
  | some dsn ↦ false
  | none ↦ only_flag (codes "future") kwargs
]

module _ {W : Type 0} (orm : Orm W) where
  open orm use {create_engine, sessionmaker, dispose}

  abbrev pub keep_engine : Bool → Answer ℕ × W → Held W → Answer ℕ × Held W
  keep_engine keep (fails e, w) h = (fails e, record h { world = w })
  keep_engine true (gives n, w) h = (gives n, record h { world = w; engine = some n })
  keep_engine false (gives n, w) h = (gives n, record h { world = w })

  -- The engine that is kept, where it is the one asked for.
  abbrev pub kept : Bool → Option ℕ → Option ℕ
  kept true o = o
  kept false o = none

  unfoldable pub engine_for : Bool → Target → Dict Argument → Call (Held W) ℕ
  engine_for default target params h = elim (kept default h.engine) [
    | some n ↦ (gives n, h)
    | none ↦ keep_engine default (create_engine target params h.world) h
  ]

  -- `sqlalchemy_engine(**kwargs)`
  unfoldable pub sqlalchemy_engine : Dict Argument → Call (Held W) ℕ
  unfolding engine_target is_default set_default engine_for
  sqlalchemy_engine kwargs h =
      let target = engine_target h.cfg in
      let params = set_default (codes "future") (flag true) kwargs in
      engine_for (is_default target params) target params h

  abbrev pub keep_maker : Bool → Answer ℕ × W → Held W → Answer ℕ × Held W
  keep_maker keep (fails e, w) h = (fails e, record h { world = w })
  keep_maker true (gives n, w) h = (gives n, record h { world = w; maker = some n })
  keep_maker false (gives n, w) h = (gives n, record h { world = w })

  -- `sqlalchemy_sessionmaker(**kwargs)`
  unfoldable pub sqlalchemy_sessionmaker : Dict Argument → Call (Held W) ℕ
  unfolding sqlalchemy_engine set_default
  sqlalchemy_sessionmaker kwargs = do
    n ← sqlalchemy_engine []
    λ h.
        let params = set_default (codes "expire_on_commit") (flag true) kwargs in
        let default = only_flag (codes "expire_on_commit") params in
        elim (kept default h.maker) [
          | some m ↦ (gives m, h)
          | none ↦ keep_maker default (sessionmaker n params h.world) h
        ]

  -- The end of `close`.
  unfoldable pub drop_engine : Held W → Held W
  drop_engine h = record h {
    engine = none;
    maker = none;
    world = elim h.engine [ none ↦ h.world | some n ↦ dispose n h.world ];
  }
