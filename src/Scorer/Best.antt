-- ===== src/Scorer/Best.antt =====
-- The submits that count: loadUserPipelines, loadUserFlags and parseOverrides of scorer.go.
pub mod Laws
pub mod Order
use notmanytask.Base.{
  String, Bool, Option, none, some, List, [], ◌∷◌, Dict, lookup, insert, string_eq, if◌then◌else◌,
}
use notmanytask.Base.Time.{before}
use notmanytask.Models.{Flag, Pipeline, OverriddenScore}
use notmanytask.Scorer.Status.{pipeline_less}
use notmanytask.Scorer.Types.{OverrideKey, override_key_eq}

-- The loop that both functions make: an entry gives way to what is less than it.
module _ {A : Type 0} (key : A → String) (less : A → A → Bool) where
  abbrev pub better : A → Option A → A
  better a none = a
  better a (some prev) = if less a prev then a else prev

  unfoldable pub keep_best : List A → Dict String A → Dict String A
  keep_best [] m = m
  keep_best (a ∷ as') m = keep_best as' (insert (key a) (better a (lookup (key a) m)) m)

unfoldable pub best_pipelines : List Pipeline → Dict String Pipeline
unfolding keep_best
best_pipelines ps = keep_best (λ p. p.task) pipeline_less ps []

abbrev pub flag_less : Flag → Flag → Bool
flag_less flag prev = before flag.created_at prev.created_at

unfoldable pub best_flags : List Flag → Dict String Flag
unfolding keep_best
best_flags fs = keep_best (λ f. f.task) flag_less fs []

abbrev pub key_of : OverriddenScore → OverrideKey
key_of o = record { login = o.gitlab_login; task = o.task }

unfoldable pub index_overrides :
    List OverriddenScore → Dict OverrideKey OverriddenScore → Dict OverrideKey OverriddenScore
index_overrides [] m = m
index_overrides (o ∷ os) m = index_overrides os (insert (key_of o) o m)

unfoldable pub parse_overrides : List OverriddenScore → Dict OverrideKey OverriddenScore
unfolding index_overrides
parse_overrides os = index_overrides os []
