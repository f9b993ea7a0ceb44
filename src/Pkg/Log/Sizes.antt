-- ===== src/Pkg/Log/Sizes.antt =====
-- How large a log file grows before it is rotated, and what Sync flushes.
use notmanytask.Base.{
  ℕ, String, ◌≡◌, ◌≤◌, ◌<◌, ◌*◌, ◌+◌, ◌/◌, refl, ◌∙◌, none, ℤ, pos, List, [], ◌∷◌, arith,
}
use notmanytask.Base.Errors.{Result, ok, err, panic, bind-ok, ok_inj, wrapped}
use notmanytask.Pkg.Log.{LogConfig, Logger, Globals, mebibyte, new_logger, with_global, init, sync}

module _ {Level : Type 0} (from_human_size : String → Result ℤ)
    (parse_level : String → Result Level) where
  -- The package's logger after a number of calls of Init.
  abbrev pub init_all : List LogConfig → Globals Level → Globals Level
  init_all [] g = g
  init_all (c ∷ cs) g = init_all cs (init from_human_size parse_level c g).1

  with_global-logger :
      (r : Result (Logger Level)) (g : Globals Level)
      → (with_global from_human_size parse_level r g).1.logger ≡ g.logger
  with_global-logger (ok l) g = refl
  with_global-logger (err e) g = refl
  with_global-logger panic g = refl

  init_all-logger :
      (configs : List LogConfig) (g : Globals Level) → (init_all configs g).logger ≡ g.logger
  unfolding init
  init_all-logger [] g = refl
  init_all-logger (c ∷ cs) g =
      init_all-logger cs
        (with_global from_human_size parse_level (new_logger from_human_size parse_level c) g).1
      ∙ with_global-logger (new_logger from_human_size parse_level c) g

  -- However often Init has run, Sync flushes nothing and answers nil, whatever a flush would come to.
  pub sync-init_all :
      (flush : Logger Level → Result (Unit {0})) (configs : List LogConfig) (g : Globals Level)
      → g.logger ≡ none
      → sync flush (init_all configs g) ≡ ok tt
  unfolding sync
  sync-init_all flush configs g e = rw (init_all-logger configs g ∙ e) refl

  -- The file of a logger that Init makes may grow to the whole MiBs of the configured size: they are no
  -- more than the size, and less than one MiB is missing. A size below one MiB gives 0.
  pub new_logger-max_size :
      (config : LogConfig) (logger : Logger Level) (bytes : ℕ)
      → from_human_size config.max_size ≡ ok (pos bytes)
      → new_logger from_human_size parse_level config ≡ ok logger
      → (m : ℕ) × (logger.rotation.max_size ≡ pos m)
        × (m * mebibyte ≤ bytes)
        × (bytes < (m + 1) * mebibyte)
  unfolding new_logger
  new_logger-max_size config logger bytes s e =
      let (level, _, e') =
        bind-ok (wrapped "failed to parse log level" (parse_level config.level)) _ logger
          (rw s at e) in
      (bytes / mebibyte, rw (← ok_inj _ logger e') refl, omega arith, omega arith)
