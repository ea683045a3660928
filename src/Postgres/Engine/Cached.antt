-- ===== src/Postgres/Engine/Cached.antt =====
-- auto_workflow/connectors/postgres.py: which engine the client hands out.
use auto_workflow.Base.{
  ◌≡◌, refl, sym, subst, lookup, mem, ◌==◌, ℕ, [], Option, none, some, true, codes, Dict, Str,
  arith,
}
use auto_workflow.Connectors.{Answer, gives, fails}
use auto_workflow.Postgres.Engine.{
  engine_for, keep_engine, Orm, Held, Argument, flag, sqlalchemy_engine, is_default, set_default,
}
use auto_workflow.Postgres.Engine.Url.{Target, engine_target}

module _ {W : Type 0} (orm : Orm W) where
  -- What is kept when an engine is handed out.
  made-Kept :
      (made : Answer ℕ × W) (h : Held W) (n : ℕ) (h' : Held W)
      → keep_engine orm true made h ≡ (gives n, h')
      → (h'.engine ≡ some n) × (h'.cfg ≡ h.cfg)
  made-Kept (fails e, w) h n h' q = ground (arith, q)
  made-Kept (gives m, w) h n h' q = ground (arith, q)

  for-Kept :
      (held : Option ℕ) (target : Target) (params : Dict Argument) (h : Held W) (n : ℕ)
      (h' : Held W)
      → h.engine ≡ held
      → engine_for orm true target params h ≡ (gives n, h')
      → (h'.engine ≡ some n) × (h'.cfg ≡ h.cfg)
  unfolding engine_for
  for-Kept none target params h n h' k q =
      made-Kept (orm.create_engine target params h.world) h n h' (ground (arith, k, q))
  for-Kept (some m) target params h n h' k q = ground (arith, k, q)

  default_lem :
      (cfg : Dict Str)
      → (engine_target cfg).raw_dsn ≡ none
      → is_default (engine_target cfg) (set_default (codes "future") (flag true) []) ≡ true
  unfolding is_default set_default lookup mem ◌==◌
  default_lem cfg d = rw (d) refl

  again :
      (target : Target) (params : Dict Argument) (h : Held W) (n : ℕ)
      → h.engine ≡ some n
      → engine_for orm true target params h ≡ (gives n, h)
  unfolding engine_for
  again target params h n k = rw (k) refl

  -- If the configuration needs no connect_args, an engine that was asked for without arguments is
  -- handed out again at the next such call, which changes nothing.
  pub sqlalchemy_engine-sqlalchemy_engine :
      (h : Held W) (n : ℕ) (h' : Held W)
      → (engine_target h.cfg).raw_dsn ≡ none
      → sqlalchemy_engine orm [] h ≡ (gives n, h')
      → sqlalchemy_engine orm [] h' ≡ (gives n, h')
  unfolding sqlalchemy_engine
  sqlalchemy_engine-sqlalchemy_engine h n h' d e =
      let params = set_default (codes "future") (flag true) [] in
      let target = engine_target h.cfg in
      let (k, c) =
        for-Kept h.engine target params h n h' refl
          (subst (λ b. engine_for orm b target params h ≡ (gives n, h')) (default_lem h.cfg d) e) in
      subst
        (λ cfg.
          engine_for orm (is_default (engine_target cfg) params) (engine_target cfg) params h'
          ≡ (gives n, h'))
        (sym c)
        (subst (λ b. engine_for orm b target params h' ≡ (gives n, h')) (sym (default_lem h.cfg d))
          (again target params h' n k))
