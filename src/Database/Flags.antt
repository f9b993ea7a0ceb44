-- ===== src/Database/Flags.antt =====
-- The flags of internal/database/database.go.
pub mod Ownership
use Prim.Native.String.{◌++◌ as append}
use notmanytask.Base.{
  ℕ, String, Bool, not, ◌&&◌, none, some, List, eqb, ◌==◌, string_eq, if◌then◌else◌,
}
use notmanytask.Base.Errors.{Error, Result, ok, err, panic, new, ◌>>=◌}
use notmanytask.Base.Time.{Time}
use notmanytask.Models.{Flag}
use notmanytask.Database.Gorm.{Gorm}
use notmanytask.Database.Errors.{is_not_found}
use notmanytask.Database.Users.{is_set, is_text}

-- `uuid` is the fresh uuid's text.
unfoldable pub flag_id : String → String → String
flag_id task uuid = append "{FLAG-" (append task (append "-" (append uuid "}")))

unfoldable pub unknown_flag : Result ℕ → Result (Unit {0})
unfolding is_not_found
unknown_flag (ok n) = if eqb n 0 then err (new "unknown flag") else ok tt
unknown_flag (err e) = if is_not_found e then err (new "unknown flag") else err e
unknown_flag panic = panic

abbrev pub is_free : String → Flag → Bool
is_free id flag = flag.id == id && not (is_set flag.gitlab_login)

abbrev pub give_to : String → Flag → Flag
give_to login flag = record flag { gitlab_login = some login }

module _ {S : Type 0} ⦃g : Gorm S⦄ where
  unfoldable pub create_flag : String → Time → String → S → Result Flag × S
  unfolding flag_id
  create_flag uuid now task s =
      let flag : Flag = record {
        id = flag_id task uuid;
        task = task;
        gitlab_login = none;
        created_at = now;
      } in
      let (res, s') = g.flags.create flag s in ((do _ ← res; ok flag), s')

  unfoldable pub submit_flag : String → String → S → Result (Unit {0}) × S
  unfolding unknown_flag
  submit_flag id login s =
      let (res, s') = g.flags.update (is_free id) (give_to login) s in (unknown_flag res, s')

  unfoldable pub list_user_flags : String → S → Result (List Flag)
  list_user_flags login s = g.flags.find (λ q. is_text login q.gitlab_login) s

  unfoldable pub list_submitted_flags : S → Result (List Flag)
  list_submitted_flags s = g.flags.find (λ q. is_set q.gitlab_login) s
