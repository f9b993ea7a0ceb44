-- ===== src/Scorer/Best/Laws.antt =====
-- Which submit of a task counts: loadUserPipelines and loadUserFlags keep a least one.
use text.Mathlib.TextEquality.{eq_iff}
use notmanytask.Base.{
  String, ◌≡◌, refl, sym, ap, ◌∙◌, subst, ◌≢◌, ◌⊎◌, inl, inr, Bool, true, false, Option, none, some,
  List, [], ◌∷◌, arith, ◌==◌, Dict, lookup, insert, lookup-insert, lookup-nil, string_eq, In,
  Bool-cases,
}
use notmanytask.Models.{Pipeline, Flag}
use notmanytask.Scorer.Status.{pipeline_less}
use notmanytask.Scorer.Best.{better, keep_best, best_pipelines, best_flags, flag_less}

pub record IsStrictOrder {A : Type 0} (less : A → A → Bool) : Type 0 where
  pub irrefl : (a : A) → less a a ≡ false
  pub trans : (a b c : A) → less a b ≡ true → less b c ≡ true → less a c ≡ true

module _ {A : Type 0} (key : A → String) (less : A → A → Bool) where
  -- What a look-up of a task may answer, given the submits seen.
  abbrev pub IsBest : String → (A → Type 0) → Option A → Type 0
  IsBest t Seen none = (b : A) → Seen b → key b ≢ t
  IsBest t Seen (some a) = Seen a × (key a ≡ t) × ((b : A) → Seen b → key b ≡ t → less b a ≡ false)

module _ {A : Type 0} (key : A → String) (less : A → A → Bool) (order : IsStrictOrder less) where
  IsBest-map :
      (t : String) (o : Option A) (S T : A → Type 0)
      → ((b : A) → S b → T b)
      → ((b : A) → T b → S b)
      → IsBest key less t S o
      → IsBest key less t T o
  IsBest-map t none S T f g h = λ b s. h b (g b s)
  IsBest-map t (some a) S T f g (s, k, least) = (f a s, k, λ b u. least b (g b u))

  -- One more submit of the task.
  IsBest-better :
      (t : String) (a : A) (o : Option A) (S : A → Type 0)
      → key a ≡ t
      → IsBest key less t S o
      → IsBest key less t (λ b. (b ≡ a) ⊎ S b) (some (better key less a o))
  IsBest-better t a none S k h =
      (inl refl, k, λ b s e. elim s [ inl p ↦ rw p (order.irrefl a) | inr q ↦ absurd (h b q e) ])
  IsBest-better t a (some prev) S k (s, k', least) = elim (Bool-cases (less a prev)) [
    | inl yes' ↦ rw yes' (
      inl refl,
      k,
      λ b u e. elim u [
        | inl p ↦ rw p (order.irrefl a)
        | inr q ↦ elim (Bool-cases (less b a)) [
          | inl bad ↦ absurd (ground (arith, order.trans b a prev bad yes', least b q e))
          | inr good ↦ good
        ]
      ],
    )
    | inr no' ↦ rw no' (inr s, k', λ b u e. elim u [ inl p ↦ rw p no' | inr q ↦ least b q e ])
  ]

  -- One more submit of another task.
  IsBest-other :
      (t : String) (a : A) (o : Option A) (S : A → Type 0)
      → key a ≢ t
      → IsBest key less t S o
      → IsBest key less t (λ b. (b ≡ a) ⊎ S b) o
  IsBest-other t a none S k h = λ b u e. elim u [ inl p ↦ k (ap key (sym p) ∙ e) | inr q ↦ h b q e ]
  IsBest-other t a (some prev) S k (s, k', least) =
      (inr s, k', λ b u e. elim u [ inl p ↦ absurd (k (ap key (sym p) ∙ e)) | inr q ↦ least b q e ])

  IsBest-insert :
      (t : String) (a : A) (m : Dict String A) (S : A → Type 0)
      → ((u : String) → IsBest key less u S (lookup u m))
      → IsBest key less t
          (λ b. (b ≡ a) ⊎ S b)
          (lookup t (insert (key a) (better key less a (lookup (key a) m)) m))
  IsBest-insert t a m S h = rw lookup-insert (elim (Bool-cases (key a == t)) [
    | inl same ↦ rw same (
        subst
          (λ u.
            IsBest key less u (λ b. (b ≡ a) ⊎ S b) (some (better key less a (lookup (key a) m))))
          ((eq_iff (key a) t).0 same)
          (IsBest-better (key a) a (lookup (key a) m) S refl (h (key a))))
    | inr other ↦
        rw other (IsBest-other t a (lookup t m) S (λ e. cc (other, (eq_iff (key a) t).1 e)) (h t))
  ])

  -- What the map answers after the loop is a least one of all that was seen.
  pub IsBest-keep_best :
      (t : String) (as' : List A) (m : Dict String A) (S : A → Type 0)
      → ((u : String) → IsBest key less u S (lookup u m))
      → IsBest key less t (λ b. In b as' ⊎ S b) (lookup t (keep_best key less as' m))
  unfolding keep_best
  IsBest-keep_best t [] m S h =
      IsBest-map t (lookup t m) S _ (λ b s. inr s)
        (λ b u. elim u [ inl bad ↦ absurd bad | inr s ↦ s ]) (h t)
  IsBest-keep_best t (a ∷ as') m S h =
      IsBest-map t _ (λ b. In b as' ⊎ ((b ≡ a) ⊎ S b)) _
        (λ b u. elim u [ inl i ↦ inl (inr i) | inr (inl e) ↦ inl (inl e) | inr (inr s) ↦ inr s ])
        (λ b u. elim u [ inl (inl e) ↦ inr (inl e) | inl (inr i) ↦ inl i | inr s ↦ inr (inr s) ])
        (IsBest-keep_best t as' (insert (key a) (better key less a (lookup (key a) m)) m) _
          (λ u. IsBest-insert u a m S h))

  pub IsBest-from_nil :
      (t : String) (as' : List A)
      → IsBest key less t (λ b. In b as') (lookup t (keep_best key less as' []))
  IsBest-from_nil t as' =
      IsBest-map t _ _ _ (λ b u. elim u [ inl i ↦ i | inr bad ↦ absurd bad ]) (λ b i. inl i)
        (IsBest-keep_best t as' [] (λ b. ⊥) (λ u. rw lookup-nil (λ b bad. absurd bad)))

pub pipeline_less-IsStrictOrder : IsStrictOrder pipeline_less
unfolding pipeline_less
pipeline_less-IsStrictOrder = record {
  irrefl = λ a. ground arith;
  trans = λ a b c p q. ground arith;
}

flag_less-IsStrictOrder : IsStrictOrder flag_less
flag_less-IsStrictOrder = record { irrefl = λ a. ground arith; trans = λ a b c p q. ground arith }

-- For every task, what loadUserPipelines keeps of the user's pipelines is one of the task's, and
-- no pipeline of the task is less than it; it keeps none exactly when the task has none.
pub best_pipelines-IsBest :
    (ps : List Pipeline) (t : String)
    → IsBest (λ p. p.task) pipeline_less t (λ p. In p ps) (lookup t (best_pipelines ps))
unfolding best_pipelines
best_pipelines-IsBest ps t =
    IsBest-from_nil (λ p. p.task) pipeline_less pipeline_less-IsStrictOrder t ps

-- For every task, what loadUserFlags keeps of the user's flags is one of the task's, and no flag of
-- the task was created before it; it keeps none exactly when the task has none.
pub best_flags-IsBest :
    (fs : List Flag) (t : String)
    → IsBest (λ f. f.task) flag_less t (λ f. In f fs) (lookup t (best_flags fs))
unfolding best_flags
best_flags-IsBest fs t = IsBest-from_nil (λ f. f.task) flag_less flag_less-IsStrictOrder t fs
