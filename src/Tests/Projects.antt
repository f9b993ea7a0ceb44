-- ===== src/Tests/Projects.antt =====
-- Projects that are made for concrete users.
use notmanytask.Base.{
  String, ◌≡◌, ◌≢◌, ◌≤◌, ◌⊎◌, refl, inl, true, false, none, some, List, [], ◌∷◌, ◌++◌, ℤ, pos, In,
  In-append_right, length, arith, subst,
}
use notmanytask.Base.Errors.{Result, ok, err, new, external}
use notmanytask.Models.{User}
use notmanytask.Database.Gorm.{Gorm}
use notmanytask.Database.Gorm.Memory.{down, list_table, list_table-laws}
use notmanytask.Gitlab.Paging.{Pages}
use notmanytask.Gitlab.Names.{make_project_url}
use notmanytask.Gitlab.Api.{GitlabApi, MemberLaws}
use notmanytask.Gitlab.Projects.{initialize_project}
use notmanytask.Gitlab.Projects.Joins.{initialize_project-joins}
use notmanytask.Gitlab.Projects.Maker.{with_repository, maybe_initialize_project}
use notmanytask.Gitlab.Projects.Maker.Rows.{maybe_initialize_project-records}
use notmanytask.Gitlab.Projects.Maker.Run.{
  Maker, selecting, requeueing, running, fired, queue_capacity, start, Step, Steps,
}
use notmanytask.Gitlab.Projects.Maker.Limits.{run-Limited, full_queue-stuck}
use notmanytask.Tests.Samples.{gitlab_conf, student}

abbrev plain : String → String
plain t = t

abbrev one_page : List ℤ → Result (List ℤ × Pages)
one_page ids = ok (ids, record { current_page = 1; total_pages = 1; next_page = 0 })

-- A GitLab whose only project has the members of the list.
instance abbrev fresh_gitlab : GitlabApi (List ℤ)
fresh_gitlab = record {
  get_project = λ path s. record {
    project = none;
    status = some 404;
    error = some (external "404 Not Found");
  };
  create_project = λ options s. (ok (pos 7), s);
  create_commit = λ project options s. (ok tt, s);
  protect_branch = λ project branch push merge unprotect s. (ok tt, s);
  list_members = λ project page s. one_page s;
  add_member = λ project id level s. (ok tt, s ++ (id ∷ []));
}

abbrev fresh_gitlab-laws : MemberLaws fresh_gitlab 0
fresh_gitlab-laws = record {
  members = λ project s. s;
  paginated = λ project s. record { next_later = λ page items pages e more. ground arith };
  listed =
      λ project page s ids pages e id i. let same : ids ≡ s = cc in subst (λ xs. In id xs) same i;
  added = λ project id level s s' e.
      let same : s ++ (id ∷ []) ≡ s' = cc in
      subst (λ xs. In id xs) same (In-append_right id s (id ∷ []) (inl refl));
}

initialize_project_example :
    (r : Result (Unit {0})) × (s' : List ℤ) × (initialize_project gitlab_conf plain 1 student []
      ≡ some (r, s'))
    × (r ≡ ok tt → (id project : ℤ) × (student.gitlab_id ≡ some id) × In id s')
    × ((student.gitlab_id ≡ none) ⊎ (student.gitlab_login ≡ none)
        → (r ≡ err (new "Empty gitlab user")) × (s' ≡ []))
initialize_project_example =
    initialize_project-joins gitlab_conf 0 fresh_gitlab-laws plain student []

student_joins : initialize_project gitlab_conf plain 1 student [] ≡ some (ok tt, pos 70 ∷ [])
unfolding initialize_project
student_joins = refl

-- A GitLab in which the student has a project, beside a database.
instance abbrev ready_gitlab : GitlabApi (List User)
ready_gitlab = record {
  get_project = λ path s. record { project = some (pos 7); status = some 200; error = none };
  create_project = λ options s. (err (external "exists"), s);
  create_commit = λ project options s. (ok tt, s);
  protect_branch = λ project branch push merge unprotect s. (ok tt, s);
  list_members = λ project page s. one_page (pos 70 ∷ []);
  add_member = λ project id level s. (err (external "down"), s);
}

instance abbrev users_db : Gorm (List User)
users_db = record {
  users = list_table (λ u. true) (λ u. u);
  pipelines = down;
  sessions = down;
  flags = down;
  overrides = down;
}

abbrev waiting : User
waiting = record student { gitlab_user = record student.gitlab_user { repository = none } }

abbrev repository : String
repository = "https://gitlab/hse/hse-Ivan-Petrov-ivan"

student_made :
    maybe_initialize_project gitlab_conf plain 1 waiting (waiting ∷ [])
    ≡ some (ok (true, with_repository repository waiting), with_repository repository waiting ∷ [])
unfolding maybe_initialize_project
student_made = refl

maybe_initialize_project_example :
    (url : String) × (s1 : List User) × (initialize_project gitlab_conf plain 1 waiting
        (waiting ∷ [])
      ≡ some (ok tt, s1))
    × (make_project_url gitlab_conf plain waiting ≡ ok url)
    × ((r : User) × In r s1
        × (r.id ≡ 7)
        × In (with_repository url r) (with_repository repository waiting ∷ []))
    × ((q : User) → In q s1 → q.id ≢ 7 → In q (with_repository repository waiting ∷ []))
maybe_initialize_project_example =
    maybe_initialize_project-records gitlab_conf plain (λ u. true) (λ u. u)
      (list_table-laws (λ u. true) (λ u. u) (λ r q. q ≡ r) (λ r. refl)) 1 waiting
      (with_repository repository waiting) (waiting ∷ []) (with_repository repository waiting ∷ [])
      student_made

abbrev nobody : User
nobody = record waiting {
  gitlab_user = record waiting.gitlab_user { gitlab_id = none; gitlab_login = none };
}

abbrev four : List User
four = nobody ∷ nobody ∷ nobody ∷ nobody ∷ []

abbrev loop : List User → Maker (List User)
loop queue = record { phase = selecting; queue = queue; timer = running; sweeps = 1; world = [] }

abbrev putting_back : List User → Maker (List User)
putting_back queue = record (loop queue) { phase = requeueing nobody }

loop_starts : start gitlab_conf plain 1 (some (pos 60)) four [] ≡ some (ok (loop four), [])
unfolding start
loop_starts = refl

abbrev three : List User
three = nobody ∷ nobody ∷ nobody ∷ []

nobody_fails :
    maybe_initialize_project {S = List User} gitlab_conf plain 1 nobody []
    ≡ some (ok (false, nobody), [])
unfolding maybe_initialize_project
nobody_fails = refl

-- The loop takes a user who cannot be served, and a sender fills the channel before it puts the user
-- back.
blocked : Steps gitlab_conf plain 1 (loop four) (putting_back four)
blocked =
    Steps.further _ (putting_back three) _
      (Step.receive_failed _ nobody nobody three [] refl refl nobody_fails)
      (Steps.further _ (putting_back four) _ (Step.send _ nobody (omega arith)) (Steps.finish _))

run_example : (length four ≤ queue_capacity) × (1 ≤ 2)
run_example =
    run-Limited gitlab_conf plain 1 (some (pos 60)) four [] [] (loop four) (putting_back four)
      (omega arith) loop_starts blocked

abbrev timed_out : Maker (List User)
timed_out = record (putting_back four) { timer = fired }

stuck_example :
    (timed_out.phase ≡ requeueing nobody) × (timed_out.queue ≡ four) × (timed_out.sweeps ≡ 1)
stuck_example =
    full_queue-stuck gitlab_conf plain 1 (putting_back four) timed_out nobody
      (Steps.further _ timed_out _ (Step.expire _ refl) (Steps.finish _)) refl refl
