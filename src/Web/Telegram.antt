-- ===== src/Web/Telegram.antt =====
-- The return from Telegram's login widget, telegramCallback of internal/web/login.go, and the look-up
-- of a user by the query.
pub mod Laws
use Prim.Native.String.{◌++◌}
use notmanytask.Base.{
  ℕ, String, Bool, true, false, not, Option, none, some, List, [], ◌∷◌, ◌++◌ as append, map, ℤ,
  Dict, lookup, select, ◌==◌, string_eq, if◌then◌else◌,
}
use notmanytask.Base.Errors.{Result, ok, err, panic}
use notmanytask.Config.{Config, TelegramBotConfig}
use notmanytask.Models.{User}
use notmanytask.Database.Gorm.{Gorm}
use notmanytask.Database.Users.{set_user_telegram_id, find_user_by_gitlab_login}
use notmanytask.Web.Numbers.{parse_int}
use notmanytask.Web.Session.{Page, redirect, telegram_page, crash}

-- url.Values, in the order in which `range` walks the map.
abbrev pub Query : Type 0
Query = Dict String (List String)

abbrev first_or_empty : Option (List String) → String
first_or_empty none = ""
first_or_empty (some []) = ""
first_or_empty (some (v ∷ vs)) = v

-- query.Get
unfoldable pub get : String → Query → String
unfolding lookup
get key query = first_or_empty (lookup key query)

-- delete(query, "hash")
unfoldable pub without_hash : Query → Query
without_hash query = select (λ e. not (e.0 == "hash")) query

unfoldable pub query_arguments : Query → List String
query_arguments [] = []
query_arguments ((k, vs) ∷ query) = append (map (λ v. k ++ ("=" ++ v)) vs) (query_arguments query)

-- strings.Join(…, "\n")
unfoldable pub join_lines : List String → String
join_lines [] = ""
join_lines (l ∷ []) = l
join_lines (l ∷ (m ∷ ls)) = l ++ ("\n" ++ join_lines (m ∷ ls))

-- `sort` is slices.Sort.
unfoldable pub data_check_string : (List String → List String) → Query → String
unfolding without_hash query_arguments join_lines
data_check_string sort query = join_lines (sort (query_arguments (without_hash query)))

-- `sign` is the hexadecimal HMAC-SHA256 of a text under the SHA-256 of a bot's token.
unfoldable pub is_signed :
    (List String → List String) → (String → String → String) → TelegramBotConfig → Query → Bool
unfolding data_check_string get
is_signed sort sign bot query =
    sign bot.bot_token (data_check_string sort query) == get "hash" query

module _ (conf : Config) where
  unfoldable pub telegram_login : Page
  telegram_login = telegram_page "Please, link your Telegram account to use notmanytask"

  abbrev pub back_to_login : Page
  back_to_login = redirect 307 conf.endpoints.telegram_login

  module _ {S : Type 0} ⦃g : Gorm S⦄ where
    abbrev pub after_store : Result (Unit {0}) × S → Page × S
    after_store (ok _, s) = (redirect 307 conf.endpoints.home, s)
    after_store (err e, s) = (back_to_login, s)
    after_store (panic, s) = (crash, s)

    unfoldable pub store_id : User → Result ℤ → S → Page × S
    unfolding set_user_telegram_id
    store_id user (ok id) s =
        after_store (set_user_telegram_id (record user { telegram_id = some id }) s)
    store_id user (err e) s = (back_to_login, s)
    store_id user panic s = (crash, s)

    module _ (sort : List String → List String) (sign : String → String → String) where
      unfoldable pub verify : Option TelegramBotConfig → User → Query → S → Page × S
      unfolding parse_int is_signed without_hash store_id
      verify none user query s = (crash, s)
      verify (some bot) user query s =
          if is_signed sort sign bot query
          then store_id user (parse_int (get "id" (without_hash query))) s
          else (back_to_login, s)

      -- The user is the one whose session the middleware has validated.
      unfoldable pub telegram_callback : User → Query → S → Page × S
      unfolding verify
      telegram_callback user query s = verify conf.telegram user query s

-- fillUserFromQuery: the handlers behind it run with a user, or not.
pub data Filled : Type 0 where
  filled : User → Filled
  turned_away : Page → Filled

module _ (conf : Config) where
  abbrev filled_by : Result User → Filled
  filled_by (ok user) = filled user
  filled_by (err e) = turned_away (redirect 307 conf.endpoints.signup)
  filled_by panic = turned_away crash

  unfoldable pub fill_user_from_query : {S : Type 0} ⦃g : Gorm S⦄ → String → S → Filled
  unfolding find_user_by_gitlab_login
  fill_user_from_query login s = filled_by (find_user_by_gitlab_login login s)
