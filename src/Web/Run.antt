-- ===== src/Web/Run.antt =====
-- internal/web/run.go: what Run starts, and in which order it ends.
pub mod Ordered
use notmanytask.Base.{List, [], ◌∷◌, ◌++◌}
use notmanytask.Base.Errors.{Result, ok, err, panic, wrapped}

-- The goroutines.
pub data Loop : Type 0 where
  deadlines_run : Loop
  projects_run : Loop
  pipelines_run : Loop
  pipelines_run_fresh : Loop
  bot_run : Loop

-- `cancelled` is the call of cancel, `waited` that of wg.Wait, `synced` that of zlog.Sync.
pub data Event : Type 0 where
  started : Loop → Event
  served : Event
  cancelled : Event
  waited : Event
  synced : Event

-- What each step of Run comes to: the config, the logger, the database, the bot, the fetcher of
-- deadlines, the client of GitLab, the makers of projects and of pipelines, and the server, which
-- only returns with an error.
pub record Parts : Type 0 where
  pub config : Result (Unit {0})
  pub logger : Result (Unit {0})
  pub database : Result (Unit {0})
  pub bot : Result (Unit {0})
  pub fetcher : Result (Unit {0})
  pub git : Result (Unit {0})
  pub projects : Result (Unit {0})
  pub pipelines : Result (Unit {0})
  pub server : Result (Unit {0})

abbrev pub Traced : Type 0
Traced = Result (Unit {0}) × List Event

abbrev pub step : Result (Unit {0}) → Traced → Traced
step (ok _) rest = rest
step (err e) rest = (err e, [])
step panic rest = (panic, [])

-- One step after the other, up to the first that fails.
abbrev pub steps : List (Result (Unit {0})) → Traced → Traced
steps [] rest = rest
steps (r ∷ rs) rest = step r (steps rs rest)

-- Deferred calls run when what stands after the defer statement has returned, with an error or not.
abbrev pub deferred : Event → Traced → Traced
deferred event (r, events) = (r, events ++ (event ∷ []))

abbrev pub emit : Event → Traced → Traced
emit event (r, events) = (r, event ∷ events)

-- The five goroutines and the server.
unfoldable pub serve : Parts → Traced
serve parts = emit (started deadlines_run) (
    emit (started projects_run) (
      emit (started pipelines_run) (
        emit (started pipelines_run_fresh)
          (emit (started bot_run) (wrapped "Server failed" parts.server, served ∷ [])))))

-- The parts that are opened before anything is started, in order.
abbrev pub openings : Parts → List (Result (Unit {0}))
openings parts =
    wrapped "Failed to open database" parts.database
    ∷ wrapped "failed to create telegram bot" parts.bot
    ∷ wrapped "Failed to create deadlines fetcher" parts.fetcher
    ∷ wrapped "Failed to create gitlab client" parts.git
    ∷ wrapped "Failed to create projects maker" parts.projects
    ∷ wrapped "Failed to create projects maker" parts.pipelines
    ∷ []

-- What stands behind the three defer statements.
unfoldable pub assemble : Parts → Traced
unfolding serve
assemble parts = steps (openings parts) (serve parts)

unfoldable pub run : Parts → Traced
unfolding assemble
run parts = step parts.config (
    step (wrapped "Failed to init logger" parts.logger)
      (deferred synced (deferred waited (deferred cancelled (assemble parts)))))
