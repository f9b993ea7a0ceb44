-- ===== src/Gitlab/Projects/Maker/Run.antt =====
-- Run of internal/gitlab/projects.go: the loop that selects among the channel, the timer and the
-- context, as steps. The senders of AsyncPrepareProject run beside it.
use notmanytask.Base.{
  ℕ, suc, ◌≡◌, ◌<◌, String, true, false, Option, none, some, List, [], ◌∷◌, ◌++◌, length,
}
use notmanytask.Base.Errors.{ok}
use notmanytask.Base.Time.{Duration}
use notmanytask.Config.{GitLabConfig}
use notmanytask.Models.{User}
use notmanytask.Database.Gorm.{Gorm}
use notmanytask.Gitlab.Api.{GitlabApi}
use notmanytask.Gitlab.Calls.{Calls, pure, ◌>>=◌}
use notmanytask.Gitlab.Projects.Maker.{maybe_initialize_project, initialize_missing_projects}

-- The capacity of the channel `users`.
abbrev pub queue_capacity : ℕ
queue_capacity = 4

-- `requeueing` is blocked in `p.users <- user`.
pub data Phase : Type 0 where
  selecting : Phase
  requeueing : User → Phase
  stopped : Phase

-- A timer of time.NewTimer sends one value.
pub data Timer : Type 0 where
  running : Timer
  fired : Timer
  spent : Timer

-- `sweeps` counts the calls of initializeMissingProjects.
pub record Maker (S : Type 0) : Type 0 where
  pub phase : Phase
  pub queue : List User
  pub timer : Timer
  pub sweeps : ℕ
  pub world : S

module _ {S : Type 0} ⦃api : GitlabApi S⦄ ⦃g : Gorm S⦄ (conf : GitLabConfig)
    (translit : String → String) (fuel : ℕ) where
  -- Up to the loop; without an interval Run returns at once.
  unfoldable pub start : Option Duration → List User → Calls S (Maker S)
  unfolding initialize_missing_projects
  start none queue s =
      pure (record { phase = stopped; queue = queue; timer = spent; sweeps = 0; world = s }) s
  start (some interval) queue s =
      (initialize_missing_projects conf translit fuel >>= λ n s'.
      pure (record { phase = selecting; queue = queue; timer = running; sweeps = 1; world = s' })
        s')
        s

  -- `outside` is what others do to the database and to GitLab meanwhile.
  pub data Step : Maker S → Maker S → Type 0 where
    send :
        (m : Maker S) (u : User)
        → length m.queue < queue_capacity
        → Step m (record m { queue = m.queue ++ (u ∷ []) })
    outside : (m : Maker S) (s : S) → Step m (record m { world = s })
    expire : (m : Maker S) → m.timer ≡ running → Step m (record m { timer = fired })
    receive_made :
        (m : Maker S) (u u' : User) (q : List User) (s : S)
        → m.phase ≡ selecting
        → m.queue ≡ u ∷ q
        → maybe_initialize_project conf translit fuel u m.world ≡ some (ok (true, u'), s)
        → Step m (record m { queue = q; world = s })
    receive_failed :
        (m : Maker S) (u u' : User) (q : List User) (s : S)
        → m.phase ≡ selecting
        → m.queue ≡ u ∷ q
        → maybe_initialize_project conf translit fuel u m.world ≡ some (ok (false, u'), s)
        → Step m (record m { queue = q; world = s; phase = requeueing u' })
    requeue :
        (m : Maker S) (u : User)
        → m.phase ≡ requeueing u
        → length m.queue < queue_capacity
        → Step m (record m { queue = m.queue ++ (u ∷ []); phase = selecting })
    tick :
        (m : Maker S) (n : ℕ) (s : S)
        → m.phase ≡ selecting
        → m.timer ≡ fired
        → initialize_missing_projects conf translit fuel m.world ≡ some (ok n, s)
        → Step m (record m { timer = spent; world = s; sweeps = suc m.sweeps })
    stop : (m : Maker S) → m.phase ≡ selecting → Step m (record m { phase = stopped })

  pub data Steps : Maker S → Maker S → Type 0 where
    finish : (m : Maker S) → Steps m m
    further : (m1 m2 m3 : Maker S) → Step m1 m2 → Steps m2 m3 → Steps m1 m3
