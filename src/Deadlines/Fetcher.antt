-- ===== src/Deadlines/Fetcher.antt =====
-- internal/deadlines/fetcher.go, and the decoding of policies in scoring.go.
pub mod Reload
pub mod Run
use Prim.Native.String.{◌++◌}
use notmanytask.Base.{
  ℕ, String, Bool, true, false, Option, none, some, List, [], ◌∷◌, ℤ, pos, ◌*◌, eqb, ◌==◌,
  string_eq, Dict, lookup, insert, if◌then◌else◌,
}
use notmanytask.Base.Errors.{Result, ok, err, panic, new, wrap, wrapped, ◌>>=◌}
use notmanytask.Base.Float.{Float}
use notmanytask.Base.Time.{Duration, second}
use notmanytask.Config.{GroupConfig}
use notmanytask.Deadlines.Policy.{ScoringPolicy, exponential, linear}
use notmanytask.Deadlines.Types.{TaskGroup, ScoringPolicySpec, Deadlines}
use notmanytask.Deadlines.Build.{build_scoring_groups, has_task}

-- The switch over the kinds of policies.
policy_of_kind :
    {W : Type 0} → String → Result (Duration × W) → Result (Duration × W) → Result (ScoringPolicy W)
policy_of_kind kind exp_spec linear_spec =
    if kind == "exp"
    then (do (multiplier, threshold) ← exp_spec; ok (exponential multiplier threshold))
    else if kind == "linear"
    then (do (after, multiplier) ← linear_spec; ok (linear after multiplier))
    else err (new ("unknown policy " ++ kind))

-- ScoringPolicySpec.UnmarshalYAML: what the decoder reads as the name and kind, and what it reads as
-- the spec of either kind.
unfoldable pub unmarshal_policy_spec :
    {W : Type 0}
    → Result (String × String)
    → Result (Duration × W)
    → Result (Duration × W)
    → Result (ScoringPolicySpec W)
unfolding policy_of_kind
unmarshal_policy_spec obj exp_spec linear_spec = do
  (name, kind) ← obj
  policy ← policy_of_kind kind exp_spec linear_spec
  ok (record { name = name; kind = kind; policy = some policy })

pub record HttpResponse : Type 0 where
  pub status_code : ℕ
  pub status : String
  pub body : Result String

-- http.Get, and yaml.Unmarshal into the two formats.
pub record Remote (W : Type 0) : Type 0 where
  pub get : String → Result HttpResponse
  pub yaml_v1 : String → Result (List TaskGroup)
  pub yaml_v2 : String → Result (Deadlines W)

-- An error of the decoder is replaced by one of the program's.
abbrev pub or_new {ℓ} : {A : Type ℓ} → String → Result A → Result A
or_new msg (ok a) = ok a
or_new msg (err e) = err (new msg)
or_new msg panic = panic

module _ {W : Type 0} ⦃f : Float W⦄ where
  -- The scoring of the first format.
  abbrev pub default_deadlines : List TaskGroup → Deadlines W
  default_deadlines assignments = record {
    assignments = assignments;
    scoring = record {
      policies =
          record {
            name = "default";
            kind = "exp";
            policy = some (exponential (pos (5 * 24 * 3600 * second)) (f.ratio 3 10));
          }
          ∷ [];
      groups =
          record {
            name = "default";
            weight = f.of_int (pos 10);
            max_score = pos 0;
            policy = "default";
          }
          ∷ [];
      default_group = "default";
      final_deadline = none;
      retake_penalty = f.of_int (pos 0);
    };
    policies = [];
    groups = [];
  }

  unfoldable pub parse_v1 : Remote W → String → Result (Deadlines W)
  parse_v1 remote body = do
    assignments ← or_new "Failed to unmarshal deadlines" (remote.yaml_v1 body)
    wrapped "Failed to build scoring groups" (build_scoring_groups (default_deadlines assignments))

  unfoldable pub parse_v2 : Remote W → String → Result (Deadlines W)
  parse_v2 remote body = do
    deadlines ← or_new "Failed to unmarshal deadlines" (remote.yaml_v2 body)
    wrapped "Failed to build scoring groups" (build_scoring_groups deadlines)

  unfoldable pub parse : Remote W → String → String → Result (Deadlines W)
  unfolding parse_v1 parse_v2
  parse remote format body =
      if format == "v1"
      then parse_v1 remote body
      else if format == "v2"
      then parse_v2 remote body
      else parse_v1 remote body

  parse_body : Remote W → String → Result String → Result (Deadlines W)
  unfolding parse
  parse_body remote format read = do
    body ← wrapped "Failed to read response" read
    parse remote format body

  unfoldable pub fetch : Remote W → String → String → Result (Deadlines W)
  unfolding parse_body
  fetch remote url format = do
    resp ← wrapped "Failed to fetch deadlines" (remote.get url)
    if eqb resp.status_code 200
        then parse_body remote format resp.body
        else err (wrap "failed to fetch deadlines" (new resp.status))

  -- The loop of reload: the deadlines of every group of the configuration.
  unfoldable pub fetch_groups :
      Remote W → List GroupConfig → Dict String (Deadlines W) → Result (Dict String (Deadlines W))
  fetch_groups remote [] m = ok m
  fetch_groups remote (g ∷ gs) m = do
    deadlines ←
        wrapped "Failed to reload deadlines" (fetch remote g.deadlines_url g.deadlines_format)
    fetch_groups remote gs (insert g.name deadlines m)

-- The atomic value `current`: nil until the first reload.
abbrev pub Current : Type 0 → Type 0
Current W = Option (Dict String (Deadlines W))

module _ {W : Type 0} where
  abbrev pub swap_in :
      Result (Dict String (Deadlines W)) → Current W → Result (Unit {0}) × Current W
  swap_in (ok m) current = (ok tt, some m)
  swap_in (err e) current = (err e, current)
  swap_in panic current = (panic, current)

  unfoldable pub reload :
      ⦃f : Float W⦄ → Remote W → List GroupConfig → Current W → Result (Unit {0}) × Current W
  unfolding fetch_groups
  reload remote groups current = swap_in (fetch_groups remote groups []) current

  unfoldable pub group_deadlines : Current W → String → Option (Deadlines W)
  group_deadlines none group = none
  group_deadlines (some m) group = lookup group m

  unfoldable pub any_has_task : Dict String (Deadlines W) → String → Bool
  any_has_task [] task = false
  any_has_task ((k, d) ∷ m) task = if has_task d task then true else any_has_task m task

  unfoldable pub any_group_has_task : Current W → String → Bool
  unfolding any_has_task
  any_group_has_task none task = false
  any_group_has_task (some m) task = any_has_task m task
