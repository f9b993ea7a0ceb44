-- ===== src/Tgbot.antt =====
-- internal/tgbot/bot.go: the bot tells who sent a forwarded message, and whose account a GitLab login
-- is.
use Prim.Native.Char.{code}
use Prim.Native.String.{[], ◌∷◌, ◌++◌}
use notmanytask.Base.{String, Option, none, some, ℤ, eqb, ◌==◌, string_eq, if◌then◌else◌}
use notmanytask.Base.Errors.{Error, Result, ok, err, panic}
use notmanytask.Models.{User}
use notmanytask.Database.Gorm.{Gorm}
use notmanytask.Database.Users.{find_user_by_telegram_id, find_user_by_gitlab_login}
use notmanytask.Gitlab.Text.{int_text}

-- A message as the bot's library reads it: `command` is empty where there is none.
pub record Message : Type 0 where
  pub message_id : ℤ
  pub chat_id : ℤ
  pub command : String
  pub arguments : String
  pub forward_from : Option ℤ

-- The message that is sent. All are in MarkdownV2.
pub record Outgoing : Type 0 where
  pub chat_id : ℤ
  pub reply_to_message_id : ℤ
  pub text : String

-- strings.Cut(s, ":"), from what stands before.
unfoldable pub cut : String → String → Option (String × String)
cut before [] = none
cut before (c ∷ s) = if eqb (code c) b':' then some (before, s) else cut (before ++ (c ∷ [])) s

-- `nothing` answers without a message.
pub data Answer : Type 0 where
  nothing : Answer
  reply : Outgoing → Answer
  failure : Error → Answer
  crashed : Answer

abbrev pub reply_to : Message → String → Answer
reply_to m text =
    reply (record { chat_id = m.chat_id; reply_to_message_id = m.message_id; text = text })

-- The author of a forwarded message.
unfoldable pub author_answer : Message → Result (Option User) → Answer
author_answer m (err e) = reply_to m "Failed to find user by telegram ID, try again later"
author_answer m (ok none) = reply_to m "The message is from unknown user"
author_answer m (ok (some user)) = elim user.telegram_id [
  | none ↦ crashed
  | some id ↦ reply_to m (
      "The message is from "
      ++ (user.first_name
          ++ (" " ++ (user.last_name ++ (" (telegram id: " ++ (int_text id ++ ")"))))))
]
author_answer m panic = crashed

-- The user of a GitLab login.
unfoldable pub account_answer : Message → Result User → Answer
account_answer m (err e) = failure e
account_answer m panic = crashed
account_answer m (ok user) = elim user.telegram_id [
  | none ↦ reply_to m (
      "User "
      ++ (user.first_name ++ (" " ++ (user.last_name ++ " does not have Telegram account"))))
  | some id ↦ reply_to m (
      "["
      ++ (user.first_name
          ++ (" " ++ (user.last_name ++ ("](tg://user?id=" ++ (int_text id ++ ")"))))))
]

module _ {S : Type 0} ⦃g : Gorm S⦄ where
  abbrev whois_in : Message → Option (String × String) → S → Answer
  whois_in m none s = reply_to m "Unknown message"
  whois_in m (some (system, name)) s =
      if system == "gitlab"
      then account_answer m (find_user_by_gitlab_login name s)
      else reply_to m ("Unknown system " ++ system)

  unfoldable pub handle_whois : Message → S → Answer
  unfolding cut account_answer find_user_by_gitlab_login
  handle_whois m s = whois_in m (cut "" m.arguments) s

  unfoldable pub handle_command : Message → S → Answer
  unfolding handle_whois
  handle_command m s = if m.command == "whois" then handle_whois m s else nothing

  abbrev from_author : Message → Option ℤ → S → Answer
  from_author m none s = nothing
  from_author m (some id) s = author_answer m (find_user_by_telegram_id id s)

  unfoldable pub handle_update : Option Message → S → Answer
  unfolding handle_command author_answer find_user_by_telegram_id
  handle_update none s = nothing
  handle_update (some m) s =
      if m.command == "" then from_author m m.forward_from s else handle_command m s
