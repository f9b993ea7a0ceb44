-- ===== src/Pkg/Log.antt =====
-- pkg/log/log.go: the logger of the service.
pub mod Sizes
use notmanytask.Base.{ℕ, String, Bool, Option, none, some, ℤ, pos, quot, ◌*◌, List, [], ◌∷◌}
use notmanytask.Base.Errors.{Result, ok, err, panic, wrapped, ◌>>=◌}

-- Config
pub record LogConfig : Type 0 where
  pub level : String
  pub filename : String
  pub max_size : String
  pub max_backups : ℤ
  pub max_age_days : ℤ
  pub development : Bool

-- lumberjack.Logger, whose MaxSize is in MiB.
pub record Rotation : Type 0 where
  pub filename : String
  pub max_size : ℤ
  pub max_backups : ℤ
  pub max_age : ℤ

-- A zap.Logger, as far as it is chosen here.
pub record Logger (Level : Type 0) : Type 0 where
  pub level : Level
  pub console : Bool
  pub rotation : Rotation

-- The variable `logger` of the package, and zap's global logger.
pub record Globals (Level : Type 0) : Type 0 where
  pub logger : Option (Logger Level)
  pub zap_global : Option (Logger Level)

abbrev pub mebibyte : ℕ
mebibyte = 1024 * 1024

abbrev pub lumberjack : LogConfig → ℤ → Rotation
lumberjack config bytes = record {
  filename = config.filename;
  max_size = quot bytes mebibyte;
  max_backups = config.max_backups;
  max_age = config.max_age_days;
}

module _ {Level : Type 0} (from_human_size : String → Result ℤ)
    (parse_level : String → Result Level) where
  -- The logger that Init makes: units.FromHumanSize and UnmarshalText are the library's.
  unfoldable pub new_logger : LogConfig → Result (Logger Level)
  new_logger config = do
    bytes ← from_human_size config.max_size
    level ← wrapped "failed to parse log level" (parse_level config.level)
    ok (record { level = level; console = config.development; rotation = lumberjack config bytes })

  -- Init declares a variable `logger` of its own, so that of the package stays as it is.
  abbrev pub with_global :
      Result (Logger Level) → Globals Level → Result (Logger Level) × Globals Level
  with_global (ok logger) g = (ok logger, record g { zap_global = some logger })
  with_global (err e) g = (err e, g)
  with_global panic g = (panic, g)

  unfoldable pub init : LogConfig → Globals Level → Result (Logger Level) × Globals Level
  unfolding new_logger
  init config g = with_global (new_logger config) g

-- Sync, with what the flush of a logger comes to.
abbrev pub flush_of :
    {Level : Type 0}
    → (Logger Level → Result (Unit {0}))
    → Option (Logger Level)
    → Result (Unit {0})
flush_of flush none = ok tt
flush_of flush (some logger) = flush logger

unfoldable pub sync :
    {Level : Type 0} → (Logger Level → Result (Unit {0})) → Globals Level → Result (Unit {0})
sync flush g = flush_of flush g.logger
