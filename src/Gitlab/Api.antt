-- ===== src/Gitlab/Api.antt =====
-- The requests that internal/gitlab/gitlab.go makes through go-gitlab, a library: a record of
-- operations on a state of the world, and what GitLab documents of the members of a project.
use notmanytask.Base.{ℕ, String, Bool, Option, List, ℤ, In, ◌≡◌}
use notmanytask.Base.Errors.{Error, Result, ok}
use notmanytask.Gitlab.Paging.{Pages}
use notmanytask.Gitlab.Paging.Laws.{Paginated}

-- What GetProject returns: the project's id, the status code of the response, and the error.
pub record ProjectAnswer : Type 0 where
  pub project : Option ℤ
  pub status : Option ℕ
  pub error : Option Error

pub data AccessLevel : Type 0 where
  developer : AccessLevel
  maintainer : AccessLevel

pub record CreateProjectOptions : Type 0 where
  pub name : String
  pub namespace_id : ℤ
  pub default_branch : String
  pub private : Bool
  pub shared_runners : Bool
  pub ci_config_path : String

-- A commit that creates one file.
pub record CreateCommitOptions : Type 0 where
  pub branch : String
  pub message : String
  pub author_name : String
  pub author_email : String
  pub file_path : String
  pub content : String

pub record GitlabApi (S : Type 0) : Type 0 where
  pub get_project : String → S → ProjectAnswer
  pub create_project : CreateProjectOptions → S → Result ℤ × S
  pub create_commit : ℤ → CreateCommitOptions → S → Result (Unit {0}) × S
  -- The branch, and who may push, merge and unprotect.
  pub protect_branch :
      ℤ → String → AccessLevel → AccessLevel → AccessLevel → S → Result (Unit {0}) × S
  -- A page of the ids of a project's members.
  pub list_members : ℤ → ℕ → S → Result (List ℤ × Pages)
  pub add_member : ℤ → ℤ → AccessLevel → S → Result (Unit {0}) × S

-- `members` are the members of a project. A list of them has `max_pages` pages at most.
pub record MemberLaws {S : Type 0} (api : GitlabApi S) (max_pages : ℕ) : Type 0 where
  pub members : ℤ → S → List ℤ
  pub paginated :
      (project : ℤ) (s : S) → Paginated (λ page. api.list_members project page s) max_pages
  pub listed :
      (project : ℤ) (page : ℕ) (s : S) (ids : List ℤ) (pages : Pages)
      → api.list_members project page s ≡ ok (ids, pages)
      → (id : ℤ) → In id ids
      → In id (members project s)
  pub added :
      (project id : ℤ) (level : AccessLevel) (s s' : S)
      → api.add_member project id level s ≡ (ok tt, s')
      → In id (members project s')
