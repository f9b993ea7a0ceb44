-- ===== src/Crashme/Permits.antt =====
-- The semaphore of cmd/crashme/main.go over all connections, which run beside each other.
use notmanytask.Base.{
  ℕ, zero, suc, ◌+◌, ◌-◌, ◌≡◌, ◌≤◌, ◌<◌, refl, ap, ◌∙◌, some, List, [], ◌∷◌, ◌++◌, get_elem?, set,
  arith,
}
use notmanytask.Crashme.Connection.{Checker}

-- Where the goroutine of a connection is: before TryAcquire, in Acquire, between it and the deferred
-- Release, and behind.
pub data Stage : Type 0 where
  arrived : Stage
  waiting : Stage
  holding : Stage
  left : Stage

-- `free` are the permits that are left; the connections stand in the order of their ids.
pub record Pool : Type 0 where
  pub free : ℕ
  pub stages : List Stage

abbrev pub empty_pool : Checker → Pool
empty_pool checker = record { free = checker.permits; stages = [] }

-- TryAcquire may fail at any time, as it does while others wait.
pub data PoolStep : Pool → Pool → Type 0 where
  accept : (p : Pool) → PoolStep p (record p { stages = p.stages ++ (arrived ∷ []) })
  try_acquire :
      (p : Pool) (id : ℕ)
      → get_elem? p.stages id ≡ some arrived
      → 0 < p.free
      → PoolStep p (record { free = p.free - 1; stages = set p.stages id holding })
  must_wait :
      (p : Pool) (id : ℕ)
      → get_elem? p.stages id ≡ some arrived
      → PoolStep p (record p { stages = set p.stages id waiting })
  grant :
      (p : Pool) (id : ℕ)
      → get_elem? p.stages id ≡ some waiting
      → 0 < p.free
      → PoolStep p (record { free = p.free - 1; stages = set p.stages id holding })
  time_out :
      (p : Pool) (id : ℕ)
      → get_elem? p.stages id ≡ some waiting
      → PoolStep p (record p { stages = set p.stages id left })
  release :
      (p : Pool) (id : ℕ)
      → get_elem? p.stages id ≡ some holding
      → PoolStep p (record { free = suc p.free; stages = set p.stages id left })

pub data PoolSteps : Pool → Pool → Type 0 where
  finish : (p : Pool) → PoolSteps p p
  further : (p q r : Pool) → PoolStep p q → PoolSteps q r → PoolSteps p r

abbrev pub holds : Stage → ℕ
holds holding = 1
holds arrived = 0
holds waiting = 0
holds left = 0

-- How many connections hold a permit.
abbrev pub holders : List Stage → ℕ
holders [] = 0
holders (s ∷ ss) = holds s + holders ss

holders-snoc : (ss : List Stage) (s : Stage) → holders (ss ++ (s ∷ [])) ≡ holders ss + holds s
holders-snoc [] s = omega arith
holders-snoc (t ∷ ss) s = omega (arith, holders-snoc ss s)

holders-set :
    (ss : List Stage) (id : ℕ) (a b : Stage)
    → get_elem? ss id ≡ some a
    → holders (set ss id b) + holds a ≡ holders ss + holds b
holders-set [] id a b e = absurd (cc)
holders-set (s ∷ ss) zero a b e = let same : s ≡ a = cc in let h = ap holds same in omega arith
holders-set (s ∷ ss) (suc id) a b e = omega (arith, holders-set ss id a b e)

PoolStep-permits :
    (p q : Pool) → PoolStep p q → q.free + holders q.stages ≡ p.free + holders p.stages
PoolStep-permits p q (PoolStep.accept _) = omega (arith, holders-snoc p.stages arrived)
PoolStep-permits p q (PoolStep.try_acquire _ id e some_free) =
    omega (arith, holders-set p.stages id arrived holding e)
PoolStep-permits p q (PoolStep.must_wait _ id e) =
    omega (arith, holders-set p.stages id arrived waiting e)
PoolStep-permits p q (PoolStep.grant _ id e some_free) =
    omega (arith, holders-set p.stages id waiting holding e)
PoolStep-permits p q (PoolStep.time_out _ id e) =
    omega (arith, holders-set p.stages id waiting left e)
PoolStep-permits p q (PoolStep.release _ id e) =
    omega (arith, holders-set p.stages id holding left e)

PoolSteps-permits :
    (p q : Pool) → PoolSteps p q → q.free + holders q.stages ≡ p.free + holders p.stages
PoolSteps-permits p q (PoolSteps.finish _) = refl
PoolSteps-permits p q (PoolSteps.further _ r _ st sts) =
    PoolSteps-permits r q sts ∙ PoolStep-permits p r st

-- From a checker without connections, however they come, wait, run and end: as many connections as
-- the concurrency allows hold a permit at most, and when none does, all permits are free again.
pub pool-permits :
    (checker : Checker) (p : Pool)
    → PoolSteps (empty_pool checker) p
    → (holders p.stages ≤ checker.permits) × (holders p.stages ≡ 0 → p.free ≡ checker.permits)
pool-permits checker p sts =
    let h = PoolSteps-permits (empty_pool checker) p sts in (omega arith, λ none_holds. omega arith)
