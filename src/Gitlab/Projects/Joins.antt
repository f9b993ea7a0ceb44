-- ===== src/Gitlab/Projects/Joins.antt =====
-- InitializeProject ends, and a success of it makes the user a member of the project.
use Prim.Native.String.{◌++◌}
use notmanytask.Gitlab.Names.{make_project_name}
use notmanytask.Base.{
  ℕ, suc, ◌≡◌, ◌≢◌, refl, ap, sym, ◌∙◌, inl, inr, Bool, true, false, ◌⊎◌, eqb, Option, none, some,
  ℤ, arith, In, Bool-cases, Option-cases, String,
}
use notmanytask.Base.Errors.{Error, Result, ok, err, panic, new}
use notmanytask.Config.{GitLabConfig}
use notmanytask.Models.{User}
use notmanytask.Gitlab.Api.{GitlabApi, MemberLaws, developer}
use notmanytask.Gitlab.Calls.{then_call-ok, then_call-ends, wrapped_call-ok}
use notmanytask.Gitlab.Projects.Members.{find_member-ends, find_member-true}
use notmanytask.Gitlab.Projects.{
  no_change, find_or_create, locate_project, prepare_named, create_project, create_readme,
  protect_master, tolerate, is_member, add_unless, prepare_project, initialize_as,
  initialize_project,
}

tolerate-some :
    {S : Type 0} (harmless : Error → Bool) (msg : String) (r : Result (Unit {0}) × S)
    → tolerate harmless msg r ≢ none
tolerate-some harmless msg (ok _, s) e = absurd (cc)
tolerate-some harmless msg (err x, s) e = absurd (cc)
tolerate-some harmless msg (panic, s) e = absurd (cc)

no_change-some : {S A : Type 0} (o : Option (Result A)) (s : S) → o ≢ none → no_change o s ≢ none
no_change-some none s h e = h refl
no_change-some (some r) s h e = absurd (cc)

no_change-ok :
    {S A : Type 0} (o : Option (Result A)) (s : S) (a : A) (s' : S)
    → no_change o s ≡ some (ok a, s')
    → (o ≡ some (ok a)) × (s ≡ s')
no_change-ok none s a s' e = absurd (cc)
no_change-ok (some r) s a s' e = (cc, cc)

module _ {S : Type 0} ⦃api : GitlabApi S⦄ (conf : GitLabConfig) where
  find_or_create-some :
      (name : String) (error : Option Error) (status : Option ℕ) (project : Option ℤ) (s : S)
      → find_or_create conf name error status project s ≢ none
  unfolding find_or_create create_project
  find_or_create-some name (some x) none project s e = absurd (cc)
  find_or_create-some name none none project s e = absurd (cc)
  find_or_create-some name (some x) (some status) project s e = elim (Bool-cases (eqb status 404)) [
    | inl q ↦ absurd (cc (rw q at e))
    | inr q ↦ absurd (cc (rw q at e))
  ]
  find_or_create-some name none (some status) project s e = elim (Bool-cases (eqb status 404)) [
    | inl q ↦ absurd (cc (rw q at e))
    | inr q ↦ absurd (cc (rw q at e))
  ]

  locate_project-some : (name : String) (s : S) → locate_project conf name s ≢ none
  unfolding locate_project
  locate_project-some name s =
      let answer = api.get_project (conf.group_name ++ ("/" ++ name)) s in
      find_or_create-some name answer.error answer.status answer.project s

  create_readme-some : (project : ℤ) (s : S) → create_readme conf project s ≢ none
  unfolding create_readme
  create_readme-some project s = tolerate-some _ _ (api.create_commit project _ s)

  protect_master-some : (project : ℤ) (s : S) → protect_master conf project s ≢ none
  unfolding protect_master
  protect_master-some project s = tolerate-some _ _ (api.protect_branch project _ _ _ _ s)

  add_unless-some :
      (found : Bool) (project id : ℤ) (s : S) → add_unless conf found project id s ≢ none
  unfolding add_unless
  add_unless-some true project id s e = absurd (cc)
  add_unless-some false project id s e = absurd (cc)

  module _ (max_pages : ℕ) (laws : MemberLaws api max_pages) where
    is_member-some : (project id : ℤ) (s : S) → is_member conf (suc max_pages) project id s ≢ none
    unfolding is_member
    is_member-some project id s = no_change-some _ s (
        find_member-ends _ id max_pages (laws.paginated project s) (suc max_pages) 0 (omega arith)
          (omega arith))

    is_member-In :
        (fuel : ℕ) (project id : ℤ) (s s' : S)
        → is_member conf fuel project id s ≡ some (ok true, s')
        → In id (laws.members project s')
    unfolding is_member
    is_member-In fuel project id s s' e =
        let (find, same) = no_change-ok _ s true s' e in
        let (page, ids, pages, listing, i) =
          find_member-true (λ n. api.list_members project n s) id fuel 0 find in
        rw (← same) (laws.listed project page s ids pages listing id i)

    prepare_project-ends :
        (id : ℤ) (name : String) (s : S) → prepare_project conf (suc max_pages) id name s ≢ none
    unfolding prepare_project
    prepare_project-ends id name s =
        then_call-ends (locate_project conf name s) _ (locate_project-some name s) λ project s1.
          then_call-ends (create_readme conf project s1) _ (create_readme-some project s1) λ _ s2.
            then_call-ends (protect_master conf project s2) _ (protect_master-some project s2)
              λ _ s3.
                then_call-ends (is_member conf (suc max_pages) project id s3) _
                  (is_member-some project id s3) λ found s4. add_unless-some found project id s4

    add_unless-joins :
        (found : Bool) (project id : ℤ) (s s' : S)
        → (found ≡ true → In id (laws.members project s))
        → add_unless conf found project id s ≡ some (ok tt, s')
        → In id (laws.members project s')
    unfolding add_unless
    add_unless-joins true project id s s' h e = let same : s ≡ s' = cc in rw (← same) (h refl)
    add_unless-joins false project id s s' h e =
        laws.added project id developer s s'
          (wrapped_call-ok _ (api.add_member project id developer s) tt s' e)

    prepare_project-joins :
        (fuel : ℕ) (id : ℤ) (name : String) (s s' : S)
        → prepare_project conf fuel id name s ≡ some (ok tt, s')
        → (project : ℤ) × In id (laws.members project s')
    unfolding prepare_project
    prepare_project-joins fuel id name s s' e =
        let (project, s1, _, e1) = then_call-ok (locate_project conf name s) _ tt s' e in
        let (_, s2, _, e2) = then_call-ok (create_readme conf project s1) _ tt s' e1 in
        let (_, s3, _, e3) = then_call-ok (protect_master conf project s2) _ tt s' e2 in
        let (found, s4, q, e4) = then_call-ok (is_member conf fuel project id s3) _ tt s' e3 in
        (
          project,
          add_unless-joins found project id s4 s'
              (λ t. is_member-In fuel project id s3 s4 (rw t at q)) e4,
        )

    module _ (translit : String → String) where
      initialize_as-joins :
          (fuel : ℕ) (user : User) (account : Option ℤ) (login : Option String) (s s' : S)
          → initialize_as conf translit fuel user account login s ≡ some (ok tt, s')
          → (id project : ℤ) × (account ≡ some id) × In id (laws.members project s')
      initialize_as-joins fuel user (some id) none s s' e = absurd (cc)
      initialize_as-joins fuel user none login s s' e = absurd (cc)
      initialize_as-joins fuel user (some id) (some login) s s' e =
          go (make_project_name conf translit user) e
        where
          go :
              (name : Result String)
              → prepare_named conf translit fuel id name s ≡ some (ok tt, s')
              → (id' project : ℤ) × (some id ≡ some id') × In id' (laws.members project s')
          go (ok name) q =
              let (project, i) = prepare_project-joins fuel id name s s' q in (id, project, refl, i)
          go (err x) q = absurd (cc)
          go panic q = absurd (cc)

      initialize_as-ends :
          (user : User) (account : Option ℤ) (login : Option String) (s : S)
          → initialize_as conf translit (suc max_pages) user account login s ≢ none
      initialize_as-ends user none login s e = absurd (cc)
      initialize_as-ends user (some id) none s e = absurd (cc)
      initialize_as-ends user (some id) (some login) s e =
          go (make_project_name conf translit user) e
        where
          go : (name : Result String) → prepare_named conf translit (suc max_pages) id name s ≢ none
          go (ok name) q = prepare_project-ends id name s q
          go (err x) q = absurd (cc)
          go panic q = absurd (cc)

      initialize_as-nobody :
          (fuel : ℕ) (user : User) (account : Option ℤ) (login : Option String) (s : S)
          → (account ≡ none) ⊎ (login ≡ none)
          → initialize_as conf translit fuel user account login s
            ≡ some (err (new "Empty gitlab user"), s)
      initialize_as-nobody fuel user none login s h = refl
      initialize_as-nobody fuel user (some id) none s h = refl
      initialize_as-nobody fuel user (some id) (some login) s (inl h) = absurd (cc)
      initialize_as-nobody fuel user (some id) (some login) s (inr h) = absurd (cc)

      -- Where no project has more than `max_pages` pages of members, InitializeProject ends with
      -- `max_pages + 1` units of fuel. If it succeeds, the user has a GitLab id and is a member of
      -- some project; if the user has no GitLab id or login, it fails and changes nothing.
      pub initialize_project-joins :
          (user : User) (s : S)
          → (r : Result (Unit {0})) × (s' : S) × (initialize_project conf translit
                (suc max_pages)
                user
                s
              ≡ some (r, s'))
            × (r ≡ ok tt
                → (id project : ℤ) × (user.gitlab_id ≡ some id) × In id (laws.members project s'))
            × ((user.gitlab_id ≡ none) ⊎ (user.gitlab_login ≡ none)
                → (r ≡ err (new "Empty gitlab user")) × (s' ≡ s))
      unfolding initialize_project
      initialize_project-joins user s =
          elim (Option-cases (initialize_project conf translit (suc max_pages) user s)) [
            | inl e ↦ absurd (initialize_as-ends user user.gitlab_id user.gitlab_login s e)
            | inr ((r, s'), e) ↦ (
              r,
              s',
              e,
              λ done.
                  initialize_as-joins (suc max_pages) user user.gitlab_id user.gitlab_login s s'
                    (e ∙ ap (λ x. some (x, s')) done),
              λ h.
                  let q =
                    sym e
                    ∙ initialize_as-nobody (suc max_pages) user user.gitlab_id user.gitlab_login s
                        h in
                  (cc, cc),
            )
          ]
