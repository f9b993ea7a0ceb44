-- ===== src/Fuzz/Bot.antt =====
-- cmd/fuzz/bot.go: the messages about the fuzzers, and what they say of a solution's user.
use Prim.Native.String.{◌++◌}
use notmanytask.Base.{
  String, Option, none, some, ℤ, pos, ◌==◌, string_eq, if◌then◌else◌, Bool, true, false,
}
use notmanytask.Base.Errors.{Result, ok, err, panic, deref, ◌>>=◌, error_text}
use notmanytask.Models.{User}
use notmanytask.Gitlab.Text.{int_text}

-- The library: the connection by a token, tg.EscapeText for MarkdownV2, and fmt.Sprintf of a format
-- without arguments.
pub record TgBot : Type 0 where
  pub connect : String → Result (Unit {0})
  pub escape_text : String → String
  pub sprintf : String → String
  pub post : ℤ → String → Result (Unit {0})

-- messageBuilder
pub record MessageBuilder : Type 0 where
  pub chat : ℤ
  pub text : String

module _ (api : TgBot) where
  -- NewBot: without a token there is no bot, which is none here.
  unfoldable pub new_bot : String → Result (Option (Unit {0}))
  new_bot token = if token == "" then ok none else (api.connect token >>= λ bot. ok (some bot))

  unfoldable pub new_message : Option (Unit {0}) → ℤ → Option MessageBuilder
  new_message none chat = none
  new_message (some bot) chat = some (record { chat = chat; text = "" })

  unfoldable pub raw : String → Option MessageBuilder → Option MessageBuilder
  raw format none = none
  raw format (some b) = some (record b { text = b.text ++ api.sprintf format })

  -- Escaped, of the text that its own call of fmt.Sprintf makes.
  unfoldable pub escaped : String → Option MessageBuilder → Option MessageBuilder
  unfolding raw
  escaped text none = none
  escaped text (some b) = raw (api.escape_text text) (some b)

  unfoldable pub send : Option MessageBuilder → Result (Unit {0})
  send none = ok tt
  send (some b) = api.post b.chat b.text

  -- The link to the user in Telegram.
  unfoldable pub user_link : Option User → Result String
  unfolding int_text
  user_link none = ok "<unknown user>"
  user_link (some user) = do
    id ← deref user.telegram_id
    ok (
        "["
        ++ (user.first_name
            ++ (" " ++ (user.last_name ++ ("](tg://user?id=" ++ (int_text id ++ ")"))))))

  abbrev pub outcome_words : Bool → String × String
  outcome_words true = ("✅ Solution of task ", ") passed in ")
  outcome_words false = ("❌ Solution of task ", ") failed in ")

  -- The message about a solution that has run: its user's login is read without a test. `spent` is the
  -- text of the time, `counts` that of how many are running.
  unfoldable pub notice :
      Option (Unit {0})
      → String
      → Option User
      → String
      → Bool
      → String
      → String
      → Result (Option MessageBuilder)
  unfolding new_message escaped raw
  notice bot task user link passed spent counts = do
    known ← deref user
    login ← deref known.gitlab_login
    let (before, after) = outcome_words passed
    ok (
        escaped (after ++ (spent ++ (", running " ++ counts))) (
          raw link (
            escaped (before ++ (task ++ (" from user " ++ (login ++ " ("))))
              (new_message bot (pos 170494590)))))

-- What RunFuzzing sends at its end, which its deferred function finds in `err` or by recover: `value` is
-- the text of what the panic was raised with.
unfoldable pub closing_text : String → String → Result (Unit {0}) → String
closing_text task value (ok _) = "Fuzzer for task " ++ (task ++ " finished")
closing_text task value (err e) = "Fuzzer for task " ++ (task ++ (" failed: " ++ error_text e))
closing_text task value panic = "Fuzzer for task " ++ (task ++ (" panicked: " ++ value))
