-- ===== src/Tests/Telegram.antt =====
-- A return from Telegram's login widget.
use notmanytask.Base.{String, ◌≡◌, ◌⊎◌, refl, true, some, List, [], ◌∷◌, ℤ, pos}
use notmanytask.Base.Errors.{ok}
use notmanytask.Config.{Config, TelegramBotConfig}
use notmanytask.Models.{User}
use notmanytask.Database.Gorm.{Gorm}
use notmanytask.Database.Gorm.Memory.{down, list_table}
use notmanytask.Database.Users.{set_user_telegram_id}
use notmanytask.Web.Numbers.{parse_int}
use notmanytask.Web.Session.{redirect}
use notmanytask.Web.Telegram.{Query, get, without_hash, data_check_string, telegram_callback}
use notmanytask.Web.Telegram.Laws.{telegram_callback-signed}
use notmanytask.Tests.Samples.{conf, student}

instance abbrev users_db : Gorm (List User)
users_db = record {
  users = list_table (λ u. true) (λ u. u);
  pipelines = down;
  sessions = down;
  flags = down;
  overrides = down;
}

abbrev bot_conf : Config
bot_conf = record conf { telegram = some (record { bot_login = "bot"; bot_token = "secret" }) }

abbrev query : Query
query = ("hash", "f00" ∷ []) ∷ ("id", "42" ∷ []) ∷ []

abbrev in_order : List String → List String
in_order lines = lines

abbrev sign : String → String → String
sign token text = "f00"

id_is_stored :
    telegram_callback bot_conf in_order sign student query (student ∷ [])
    ≡ (redirect 307 "/", record student { telegram_id = some (pos 42) } ∷ [])
unfolding telegram_callback
id_is_stored = refl

telegram_example :
    ((telegram_callback bot_conf in_order sign student query (student ∷ [])).1 ≡ student ∷ [])
    ⊎ ((b : TelegramBotConfig) × (id : ℤ) × (bot_conf.telegram ≡ some b)
        × (get "hash" query ≡ sign b.bot_token (data_check_string in_order query))
        × (parse_int (get "id" (without_hash query)) ≡ ok id)
        × ((telegram_callback bot_conf in_order sign student query (student ∷ [])).1
            ≡ (set_user_telegram_id (record student { telegram_id = some id }) (student ∷ [])).1))
telegram_example = telegram_callback-signed bot_conf in_order sign student query (student ∷ [])
