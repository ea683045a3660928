-- ===== src/Logging/Handlers.antt =====
-- auto_workflow/logging_middleware.py: the handlers of the logger.
use auto_workflow.Base.{
  ℕ, ◌+◌, suc, zero, ◌≡◌, refl, ap, Bool, true, false, not, Option, none, some, List, [], ◌∷◌, ◌++◌,
  filter, length, Str, arith,
}

-- The handlers that this module adds are marked `_aw_default` or `_aw_pretty`.
pub data Handler : Type 0 where
  default_handler : Handler
  pretty_handler : Handler
  other_handler : ℕ → Handler

pub record Logger : Type 0 where
  pub handlers : List Handler
  pub threshold : ℕ
  pub propagate : Bool

abbrev pub is_marked_default : Handler → Bool
is_marked_default default_handler = true
is_marked_default pretty_handler = false
is_marked_default (other_handler n) = false

abbrev pub is_pretty : Handler → Bool
is_pretty default_handler = false
is_pretty pretty_handler = true
is_pretty (other_handler n) = false

-- `level_named` is `getattr(logging, level.upper(), logging.INFO)` where `setLevel` takes it; else
-- the level is INFO.
module _ (level_named : Str → Option ℕ) (info_level : ℕ) where
  abbrev pub threshold_of : Str → ℕ
  threshold_of level = elim (level_named level) [ none ↦ info_level | some n ↦ n ]

  unfoldable pub enable_default_logging : Str → Logger → Logger
  enable_default_logging level logger = record {
    handlers = elim logger.handlers [ [] ↦ default_handler ∷ [] | h ∷ hs ↦ h ∷ hs ];
    threshold = threshold_of level;
    propagate = false;
  }

  unfoldable pub enable_pretty_logging : Str → Logger → Logger
  enable_pretty_logging level logger = record {
    handlers = filter (λ h. not (is_marked_default h)) logger.handlers ++ pretty_handler ∷ [];
    threshold = threshold_of level;
    propagate = false;
  }

  pub enable_default_logging_again :
      (level : Str) (logger : Logger)
      → enable_default_logging level (enable_default_logging level logger)
        ≡ enable_default_logging level logger
  unfolding enable_default_logging
  enable_default_logging_again level logger = by_handlers logger.handlers refl
    where
      by_handlers :
          (hs : List Handler)
          → logger.handlers ≡ hs
          → enable_default_logging level (enable_default_logging level logger)
            ≡ enable_default_logging level logger
      by_handlers [] e = rw (e, enable_default_logging) refl
      by_handlers (h ∷ hs) e = rw (e, enable_default_logging) refl

  abbrev pub pretty_count : List Handler → ℕ
  pretty_count hs = length (filter is_pretty hs)

  unfoldable pub enable_pretty_logging_n : ℕ → Str → Logger → Logger
  enable_pretty_logging_n zero level logger = logger
  enable_pretty_logging_n (suc n) level logger =
      enable_pretty_logging level (enable_pretty_logging_n n level logger)

  pretty_kept :
      (hs : List Handler)
      → length (filter is_pretty (filter (λ h. not (is_marked_default h)) hs))
        ≡ length (filter is_pretty hs)
  pretty_kept [] = refl
  pretty_kept (default_handler ∷ hs) = pretty_kept hs
  pretty_kept (pretty_handler ∷ hs) = ap suc (pretty_kept hs)
  pretty_kept (other_handler n ∷ hs) = pretty_kept hs

  pretty_snoc :
      (hs : List Handler)
      → length (filter is_pretty (hs ++ pretty_handler ∷ [])) ≡ suc (length (filter is_pretty hs))
  pretty_snoc [] = refl
  pretty_snoc (default_handler ∷ hs) = pretty_snoc hs
  pretty_snoc (pretty_handler ∷ hs) = ap suc (pretty_snoc hs)
  pretty_snoc (other_handler n ∷ hs) = pretty_snoc hs

  -- Enabling the pretty log n times leaves n pretty handlers more than the logger had, so that
  -- each record is printed once more per call.
  pub pretty_handlers_grow :
      (n : ℕ) (level : Str) (logger : Logger)
      → pretty_count (enable_pretty_logging_n n level logger).handlers
        ≡ n + pretty_count logger.handlers
  unfolding enable_pretty_logging_n enable_pretty_logging
  pretty_handlers_grow zero level logger = omega arith
  pretty_handlers_grow (suc n) level logger =
      let before = (enable_pretty_logging_n n level logger).handlers in
      omega (
        arith,
        pretty_handlers_grow n level logger,
        pretty_snoc (filter (λ h. not (is_marked_default h)) before),
        pretty_kept before,
      )
