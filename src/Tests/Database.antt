-- ===== src/Tests/Database.antt =====
-- The tables in memory, with concrete rows.
use notmanytask.Base.{◌≡◌, ◌≢◌, refl, inl, Bool, true, some, List, [], ◌∷◌, pos, In}
use notmanytask.Base.Errors.{ok}
use notmanytask.Models.{User, Pipeline, Flag, OverriddenScore, status_success}
use notmanytask.Database.Gorm.{Gorm, TableLaws}
use notmanytask.Database.Gorm.Memory.{down, list_table, list_table-laws}
use notmanytask.Database.Users.{link, set_user_gitlab_account}
use notmanytask.Database.Submits.{add_pipeline}
use notmanytask.Database.Flags.{submit_flag}
use notmanytask.Database.Flags.Ownership.{submit_flag_once}
use notmanytask.Database.Overrides.{add_override, remove_override, list_user_overrides}
use notmanytask.Database.Overrides.Visibility.{
  is_live, mark_deleted, StoredAs, override_stays_hidden,
}
use notmanytask.Tests.Samples.{student, newcomer, failed_run, taken_flag, free_flag, override_row}

abbrev pub always : {A : Type 0} → A → Bool
always a = true

abbrev pub same : {A : Type 0} → A → A
same a = a

abbrev pub in_memory :
    {A : Type 0} (live : A → Bool) (remove : A → A)
    → TableLaws (list_table live remove) live remove (λ r q. q ≡ r)
in_memory live remove = list_table-laws live remove (λ r q. q ≡ r) (λ r. refl)

instance abbrev pub flags_db : Gorm (List Flag)
flags_db = record {
  users = down;
  pipelines = down;
  sessions = down;
  flags = list_table always same;
  overrides = down;
}

instance abbrev users_db : Gorm (List User)
users_db = record {
  users = list_table always same;
  pipelines = down;
  sessions = down;
  flags = down;
  overrides = down;
}

instance abbrev pipelines_db : Gorm (List Pipeline)
pipelines_db = record {
  users = down;
  pipelines = list_table always same;
  sessions = down;
  flags = down;
  overrides = down;
}

instance abbrev overrides_db : Gorm (List OverriddenScore)
overrides_db = record {
  users = down;
  pipelines = down;
  sessions = down;
  flags = down;
  overrides = list_table is_live (mark_deleted (pos 9));
}

abbrev won_flag : Flag
won_flag = record free_flag { gitlab_login = some "anna" }

abbrev pub flag_rows : List Flag
flag_rows = taken_flag ∷ free_flag ∷ []

anna_submits : submit_flag "{FLAG-crash-2}" "anna" flag_rows ≡ (ok tt, taken_flag ∷ won_flag ∷ [])
unfolding submit_flag
anna_submits = refl

submit_flag_once_example :
    (submit_flag "{FLAG-crash-2}" "ivan" (taken_flag ∷ won_flag ∷ [])).0 ≢ ok tt
submit_flag_once_example =
    submit_flag_once always same (in_memory always same) "{FLAG-crash-2}" "anna" "ivan" flag_rows
      (taken_flag ∷ won_flag ∷ []) anna_submits

abbrev linked_newcomer : User
linked_newcomer = link student.gitlab_user newcomer

newcomer_links :
    set_user_gitlab_account 8 student.gitlab_user (student ∷ newcomer ∷ [])
    ≡ (ok tt, student ∷ linked_newcomer ∷ [])
unfolding set_user_gitlab_account
newcomer_links = refl

abbrev passed_run : Pipeline
passed_run = record failed_run { status = status_success; task = "other" }

abbrev updated_run : Pipeline
updated_run = record failed_run { status = status_success }

run_passes : add_pipeline passed_run (failed_run ∷ []) ≡ (ok tt, updated_run ∷ [])
unfolding add_pipeline
run_passes = refl

abbrev overrides_in_memory :
    TableLaws (list_table is_live (mark_deleted (pos 9))) is_live (mark_deleted (pos 9)) StoredAs
overrides_in_memory =
    list_table-laws is_live (mark_deleted (pos 9)) StoredAs
      (λ r. record { live = refl; login = refl; task = refl; score = refl; status = refl })

abbrev changed_row : OverriddenScore
changed_row = record override_row { score = pos 77 }

override_changes :
    add_override "ivan" "sum" (pos 77) status_success (override_row ∷ [])
    ≡ (ok tt, changed_row ∷ [])
unfolding add_override
override_changes = refl

abbrev deleted_row : OverriddenScore
deleted_row = mark_deleted (pos 9) override_row

override_removed : remove_override "ivan" "sum" (override_row ∷ []) ≡ (ok tt, deleted_row ∷ [])
unfolding remove_override
override_removed = refl

override_comes_back :
    add_override "ivan" "sum" (pos 77) status_success (deleted_row ∷ [])
    ≡ (ok tt, record deleted_row { score = pos 77 } ∷ [])
unfolding add_override
override_comes_back = refl

abbrev no_overrides : List OverriddenScore
no_overrides = []

nothing_listed :
    list_user_overrides "ivan" (record deleted_row { score = pos 77 } ∷ []) ≡ ok no_overrides
unfolding list_user_overrides
nothing_listed = refl

override_stays_hidden_example : ¬ ((q : OverriddenScore) × In q no_overrides × (q.task ≡ "sum"))
override_stays_hidden_example =
    override_stays_hidden (pos 9) overrides_in_memory "ivan" "sum" (pos 77) status_success
      (override_row ∷ []) (deleted_row ∷ []) (record deleted_row { score = pos 77 } ∷ [])
      override_row no_overrides (inl refl) refl override_removed override_comes_back nothing_listed
