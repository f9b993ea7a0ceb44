-- ===== src/Scorer/Providers.antt =====
-- makeCachedPipelinesProvider and makeCachedFlagsProvider of scorer.go: one query for all users.
pub mod Laws
use notmanytask.Base.{
  String, Option, none, some, List, [], ◌∷◌, ◌++◌, Dict, lookup, insert, string_eq,
}
use notmanytask.Base.Errors.{Result, ok, deref, ◌>>=◌}
use notmanytask.Models.{Pipeline, Flag}

-- A missing key of a map of slices is an empty slice.
abbrev pub rows_at : {A : Type 0} → Option (List A) → List A
rows_at none = []
rows_at (some rows) = rows

-- `m[k] = append(m[k], row)`
abbrev pub add_row : {A : Type 0} → String → A → Dict String (List A) → Dict String (List A)
add_row k row m = insert k (rows_at (lookup k m) ++ (row ∷ [])) m

unfoldable pub pipelines_by_project :
    List Pipeline → Dict String (List Pipeline) → Dict String (List Pipeline)
pipelines_by_project [] m = m
pipelines_by_project (p ∷ ps) m = pipelines_by_project ps (add_row p.project p m)

-- A flag with no login is a nil pointer that the loop follows.
unfoldable pub flags_by_login :
    List Flag → Dict String (List Flag) → Result (Dict String (List Flag))
flags_by_login [] m = ok m
flags_by_login (flag ∷ flags) m = do
  login ← deref flag.gitlab_login
  flags_by_login flags (add_row login flag m)

unfoldable pub cached_pipelines_provider :
    Result (List Pipeline) → Result (String → Result (List Pipeline))
unfolding pipelines_by_project
cached_pipelines_provider listed = do
  pipelines ← listed
  let m = pipelines_by_project pipelines []
  ok (λ project. ok (rows_at (lookup project m)))

unfoldable pub cached_flags_provider : Result (List Flag) → Result (String → Result (List Flag))
unfolding flags_by_login
cached_flags_provider listed = do
  flags ← listed
  m ← flags_by_login flags []
  ok (λ login. ok (rows_at (lookup login m)))
