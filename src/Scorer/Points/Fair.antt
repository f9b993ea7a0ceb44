-- ===== src/Scorer/Points/Fair.antt =====
-- What scorePipeline of internal/scorer/scorer.go leaves to later submits and to retakes.
use text.Mathlib.TextEquality.{eq_iff}
use notmanytask.Base.{
  ℕ, ◌^◌, ◌<◌, ◌≤ℤ◌, ◌<ℤ◌, ◌≡◌, ◌∙◌, ◌⊎◌, inl, inr, refl, true, false, some, ℤ, pos, ltb_ℤ, ◌==◌,
  string_eq, Bool-cases, Option-cases, arith,
}
use notmanytask.Base.Float.{Float}
use notmanytask.Base.Time.{Time, after}
use notmanytask.Models.{User, Pipeline, status_success}
use notmanytask.Deadlines.Policy.{ScoringPolicy, policy_score, exponential}
use notmanytask.Deadlines.Policy.Bounds.{IsShare}
use notmanytask.Deadlines.Policy.Falls.{FallingLaws, exponential_score_falls}
use notmanytask.Deadlines.Types.{Task, TaskGroup, Deadlines}
use notmanytask.Scorer.Points.{at_least, score_in_time, retake_score, score_pipeline}

abbrev Falls : (Time → ℤ) → Type 0
Falls score = (u v : Time) → u ≤ℤ v → (score v ≤ℤ score u) × (pos 0 ≤ℤ score v)

module _ {W : Type 0} ⦃f : Float W⦄ where
  -- The final deadline takes nothing back from a later submit.
  score_in_time-Falls :
      (policy : ScoringPolicy W) (d : Deadlines W) (t : Task) (group : TaskGroup)
      → Falls (policy_score policy t.score group.deadline)
      → Falls (score_in_time policy d t group)
  unfolding score_in_time
  score_in_time-Falls policy d t group falls u v h =
      let (less, positive) = falls u v h in
      let (_, positive') = falls u u (ground arith) in
      elim (Option-cases d.scoring.final_deadline) [
        | inl e ↦ rw e (less, positive)
        | inr (D, e) ↦ rw e (elim (Bool-cases (after v D)) [
          | inl over ↦ elim (Bool-cases (after u D)) [
            | inl over' ↦ rw (over, over') (ground arith, ground arith)
            | inr in_time ↦ rw (over, in_time) (positive', ground arith)
          ]
          | inr in_time ↦
              let in_time' : after u D ≡ false = ground arith in
              rw (in_time, in_time') (less, positive)
        ])
      ]

  -- The score of a user, of what the user has in time and of the share that a retake guarantees.
  successful_score :
      (policy : ScoringPolicy W) (d : Deadlines W) (user : User) (t : Task) (group : TaskGroup)
      (p : Pipeline)
      → p.status ≡ status_success
      → ((user.has_retake ≡ false)
          × (score_pipeline (some policy) d user t group p
              ≡ score_in_time policy d t group p.started_at))
        ⊎ ((user.has_retake ≡ true)
            × (score_pipeline (some policy) d user t group p
                ≡ at_least (retake_score d t) (score_in_time policy d t group p.started_at)))
  unfolding score_pipeline
  successful_score policy d user t group p s =
      let ok' = (eq_iff p.status status_success).1 s in
      elim (Bool-cases user.has_retake) [
        | inl has ↦ inr (has, rw (ok', has) refl)
        | inr lacks ↦ inl (lacks, rw (ok', lacks) refl)
      ]

  failed_score :
      (policy : ScoringPolicy W) (d : Deadlines W) (user : User) (t : Task) (group : TaskGroup)
      (p : Pipeline)
      → (p.status == status_success) ≡ false
      → score_pipeline (some policy) d user t group p ≡ pos 0
  unfolding score_pipeline
  failed_score policy d user t group p e = rw e refl

  score_pipeline-Falls :
      (policy : ScoringPolicy W) (d : Deadlines W) (user : User) (t : Task) (group : TaskGroup)
      (p q : Pipeline)
      → Falls (policy_score policy t.score group.deadline)
      → p.status ≡ status_success
      → p.started_at ≤ℤ q.started_at
      → (score_pipeline (some policy) d user t group q
          ≤ℤ score_pipeline (some policy) d user t group p)
        × (pos 0 ≤ℤ score_pipeline (some policy) d user t group p)
  score_pipeline-Falls policy d user t group p q falls s h =
      let base = score_in_time-Falls policy d t group falls in
      let (less, _) = base p.started_at q.started_at h in
      let (_, positive) = base p.started_at p.started_at (ground arith) in
      elim (Bool-cases (q.status == status_success)) [
        | inl e ↦ elim (successful_score policy d user t group p s) [
          | inl (lacks, x) ↦
              elim (successful_score policy d user t group q
                ((eq_iff q.status status_success).0 e)) [
                  | inl (_, y) ↦ rw (x, y) (less, positive)
                  | inr (has, y) ↦ absurd (cc)
                ]
          | inr (has, x) ↦
              elim (successful_score policy d user t group q
                ((eq_iff q.status status_success).0 e)) [
                  | inl (lacks, y) ↦ absurd (cc)
                  | inr (_, y) ↦ rw (x, y) (ground arith, ground arith)
                ]
        ]
        | inr e ↦ elim (successful_score policy d user t group p s) [
          | inl (lacks, x) ↦ rw (failed_score policy d user t group q e, x) (positive, positive)
          | inr (has, x) ↦
              rw (failed_score policy d user t group q e, x) (ground arith, ground arith)
        ]
      ]

  final-late :
      (policy : ScoringPolicy W) (d : Deadlines W) (t : Task) (group : TaskGroup) (u D : Time)
      → d.scoring.final_deadline ≡ some D
      → D <ℤ u
      → score_in_time policy d t group u ≡ pos 0
  unfolding score_in_time
  final-late policy d t group u D e over =
      let over' : after u D ≡ true = ground arith in rw (e, over') refl

  plain_score :
      (policy : ScoringPolicy W) (d : Deadlines W) (user : User) (t : Task) (group : TaskGroup)
      (p : Pipeline)
      → p.status ≡ status_success
      → score_pipeline (some policy) d (record user { has_retake = false }) t group p
        ≡ score_in_time policy d t group p.started_at
  plain_score policy d user t group p s =
      elim (successful_score policy d (record user { has_retake = false }) t group p s) [
        | inl (_, e) ↦ e
        | inr (has, e) ↦ absurd (cc)
      ]

  -- A retake gives the greater of two scores.
  retake-score :
      (policy : ScoringPolicy W) (d : Deadlines W) (user : User) (t : Task) (group : TaskGroup)
      (p : Pipeline)
      → p.status ≡ status_success
      → user.has_retake ≡ true
      → let share = f.to_int (f.mul (f.of_int t.score) d.scoring.retake_penalty) in
        let score = score_pipeline (some policy) d user t group p in
        let plain = score_pipeline (some policy) d (record user { has_retake = false }) t group p in
        (share ≤ℤ score) × (plain ≤ℤ score) × ((score ≡ share) ⊎ (score ≡ plain))
  unfolding retake_score
  retake-score policy d user t group p s has = elim (successful_score policy d user t group p s) [
    | inl (lacks, e) ↦ absurd (cc)
    | inr (_, e) ↦
        let share = f.to_int (f.mul (f.of_int t.score) d.scoring.retake_penalty) in
        let base = score_in_time policy d t group p.started_at in
        rw (e, plain_score policy d user t group p s)
          (elim (Bool-cases (ltb_ℤ base share)) [
            | inl below ↦ rw below (ground arith, ground arith, inl refl)
            | inr above ↦ rw above (ground arith, ground arith, inr refl)
          ])
  ]

  -- By the exponential policy, with a threshold from 0 to 1, a positive time and a task of less than
  -- 2^53 points, as far as floats obey IEEE 754 and math.Exp is monotone: a pipeline that has not
  -- started before one that succeeded earns no more than this one, whatever its own status, and no
  -- score is below 0; one that started after the final deadline earns nothing without a retake; and a
  -- user with a retake gets the greater of what the same user gets without one and of the task's
  -- points times the penalty.
  pub score_pipeline-fair :
      (laws : FallingLaws W) (wait n : ℕ) (threshold : W) (d : Deadlines W) (user : User) (t : Task)
      (group : TaskGroup) (p q : Pipeline)
      → 0 < wait
      → wait < 2 ^ 63
      → n < 2 ^ 53
      → IsShare threshold
      → t.score ≡ pos n
      → p.status ≡ status_success
      → p.started_at ≤ℤ q.started_at
      → let policy = some (exponential (pos wait) threshold) in
        let share = f.to_int (f.mul (f.of_int t.score) d.scoring.retake_penalty) in
        let score = score_pipeline policy d user t group p in
        let plain = score_pipeline policy d (record user { has_retake = false }) t group p in
        (score_pipeline policy d user t group q ≤ℤ score)
        × (pos 0 ≤ℤ score)
        × ((D : Time) → d.scoring.final_deadline ≡ some D → D <ℤ p.started_at → plain ≡ pos 0)
        × (user.has_retake ≡ true
            → (share ≤ℤ score) × (plain ≤ℤ score) × ((score ≡ share) ⊎ (score ≡ plain)))
  score_pipeline-fair laws wait n threshold d user t group p q some_time short exact share worth s
        h =
      let policy = exponential (pos wait) threshold in
      let falls : Falls (policy_score policy t.score group.deadline) = λ u v le. rw worth (
        unfold policy_score in
        exponential_score_falls laws wait n threshold group.deadline some_time short exact share u v
          le) in
      let (less, positive) = score_pipeline-Falls policy d user t group p q falls s h in
      (
        less,
        positive,
        λ D e over.
            plain_score policy d user t group p s
            ∙ final-late policy d t group p.started_at D e over,
        λ has. retake-score policy d user t group p s has,
      )
