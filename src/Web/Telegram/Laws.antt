-- ===== src/Web/Telegram/Laws.antt =====
-- A Telegram id is stored only from a query that the bot's token signs.
use notmanytask.Base.{
  String, ◌≡◌, refl, sym, ◌⊎◌, inl, inr, true, Option, none, some, List, ℤ, Bool-cases, string_eq,
}
use notmanytask.Base.Errors.{Result, ok, err, panic}
use notmanytask.Config.{Config, TelegramBotConfig}
use notmanytask.Models.{User}
use notmanytask.Database.Gorm.{Gorm}
use notmanytask.Database.Users.{set_user_telegram_id}
use notmanytask.Web.Numbers.{parse_int}
use notmanytask.Web.Telegram.{
  Query, get, without_hash, data_check_string, after_store, store_id, is_signed, verify,
  telegram_callback,
}

module _ (conf : Config) {S : Type 0} ⦃g : Gorm S⦄ where
  after_store-state : (r : Result (Unit {0}) × S) → (after_store conf r).1 ≡ r.1
  after_store-state (ok _, s) = refl
  after_store-state (err e, s) = refl
  after_store-state (panic, s) = refl

  store_id-state :
      (user : User) (n : Result ℤ) (s : S)
      → ((store_id conf user n s).1 ≡ s)
        ⊎ ((id : ℤ) × (n ≡ ok id)
            × ((store_id conf user n s).1
                ≡ (set_user_telegram_id (record user { telegram_id = some id }) s).1))
  unfolding store_id
  store_id-state user (ok id) s = inr (id, refl, after_store-state _)
  store_id-state user (err e) s = inl refl
  store_id-state user panic s = inl refl

  module _ (sort : List String → List String) (sign : String → String → String) where
    verify-state :
        (bot : Option TelegramBotConfig) (user : User) (query : Query) (s : S)
        → ((verify conf sort sign bot user query s).1 ≡ s)
          ⊎ ((b : TelegramBotConfig) × (id : ℤ) × (bot ≡ some b)
              × (is_signed sort sign b query ≡ true)
              × (parse_int (get "id" (without_hash query)) ≡ ok id)
              × ((verify conf sort sign bot user query s).1
                  ≡ (set_user_telegram_id (record user { telegram_id = some id }) s).1))
    unfolding verify
    verify-state none user query s = inl refl
    verify-state (some bot) user query s = elim (Bool-cases (is_signed sort sign bot query)) [
      | inl signed ↦
          rw signed (elim (store_id-state user (parse_int (get "id" (without_hash query))) s) [
            | inl same ↦ inl same
            | inr (id, parsed, stored) ↦ inr (bot, id, refl, signed, parsed, stored)
          ])
      | inr other ↦ inl (rw other refl)
    ]

    -- The return from Telegram leaves the database as it was, or a bot is configured, the hash of the
    -- query is the signature under the bot's token of the other arguments, the argument `id` is a
    -- 64-bit number, and the only change is that SetUserTelegramID was called with this number for
    -- the user of the session.
    pub telegram_callback-signed :
        (user : User) (query : Query) (s : S)
        → ((telegram_callback conf sort sign user query s).1 ≡ s)
          ⊎ ((b : TelegramBotConfig) × (id : ℤ) × (conf.telegram ≡ some b)
              × (get "hash" query ≡ sign b.bot_token (data_check_string sort query))
              × (parse_int (get "id" (without_hash query)) ≡ ok id)
              × ((telegram_callback conf sort sign user query s).1
                  ≡ (set_user_telegram_id (record user { telegram_id = some id }) s).1))
    unfolding telegram_callback is_signed
    telegram_callback-signed user query s = elim (verify-state conf.telegram user query s) [
      | inl same ↦ inl same
      | inr (b, id, has, signed, parsed, stored) ↦
          inr (b, id, has, sym ((string_eq.beq_iff _ _).0 signed), parsed, stored)
    ]
