-- ===== src/App/Settings.antt =====
-- config.py: the settings that the modelled code reads, from the environment, and the assertions of the
-- production configuration.
use paysika.Prelude.{inl, arith, false, inr, true, ◌≡◌, String, Option, str_eq, not, or_else}
use paysika.Prelude.Int.{ℤ}
use paysika.Errors.{
  Result, ok, value_error, assertion_error, then_do, or_error, check, Result-cases,
}
use paysika.Store.{is_set}

-- The currencies are the text before it is split; no code reads them.
pub record Settings : Type 0 where
  pub secret_key : String
  pub jwt_secret_key : String
  pub items_per_page : ℤ
  pub max_per_page : ℤ
  pub ledger_snapshot_threshold : ℤ
  pub idempotency_key_ttl_hours : ℤ
  pub platform_clearing_account_name : String
  pub supported_currencies : String
  pub webhook_secret : String
  pub webhook_timestamp_tolerance : ℤ

abbrev pub default_secret_key : String
default_secret_key = "change-me-in-production-and-make-it-at-least-32-bytes"

abbrev pub default_jwt_secret_key : String
default_jwt_secret_key = "jwt-change-me-to-32-bytes-too-mkay"

-- `getenv` is the environment, and `int` is none where Python's raises.
module _ (getenv : String → Option String) (int : String → Option ℤ) where
  unfoldable pub text_or : String → String → String
  text_or name default = or_else (getenv name) default

  unfoldable pub int_or : String → String → Result ℤ
  unfolding text_or
  int_or name default = or_error (int (text_or name default)) value_error

  -- The body of the class `BaseConfig`.
  unfoldable pub base_config : Result Settings
  unfolding text_or int_or
  base_config = then_do (int_or "ITEMS_PER_PAGE" "20") λ items.
      then_do (int_or "MAX_PER_PAGE" "100") λ most.
        then_do (int_or "LEDGER_SNAPSHOT_THRESHOLD" "100") λ threshold.
          then_do (int_or "IDEMPOTENCY_KEY_TTL_HOURS" "24") λ ttl.
            then_do (int_or "WEBHOOK_TIMESTAMP_TOLERANCE" "300") λ tolerance. ok (record {
              secret_key = text_or "SECRET_KEY" default_secret_key;
              jwt_secret_key = text_or "JWT_SECRET_KEY" default_jwt_secret_key;
              items_per_page = items;
              max_per_page = most;
              ledger_snapshot_threshold = threshold;
              idempotency_key_ttl_hours = ttl;
              platform_clearing_account_name =
                  text_or "PLATFORM_CLEARING_ACCOUNT_NAME" "Platform Clearing";
              supported_currencies = text_or "SUPPORTED_CURRENCIES" "USD,EUR,GBP,NGN,XAF";
              webhook_secret = text_or "WEBHOOK_SECRET" "";
              webhook_timestamp_tolerance = tolerance;
            })

  -- `ProductionConfig.init_app`.
  unfoldable pub init_app : Settings → Result (Unit {0})
  init_app c = then_do (check (not (is_set (getenv "DATABASE_URL"))) assertion_error) λ _.
      then_do (check (str_eq c.secret_key default_secret_key) assertion_error) λ _.
        then_do (check (str_eq c.jwt_secret_key default_jwt_secret_key) assertion_error)
          λ _. check (str_eq c.webhook_secret "") assertion_error

  -- `create_app("production")` as far as its settings.
  unfoldable pub production : Result Settings
  unfolding base_config init_app
  production = then_do base_config λ c. then_do (init_app c) λ _. ok c

  init_app_passed :
      (c : Settings)
      → init_app c ≡ ok tt
      → (is_set (getenv "DATABASE_URL") ≡ true)
        × (str_eq c.secret_key default_secret_key ≡ false)
        × (str_eq c.jwt_secret_key default_jwt_secret_key ≡ false)
        × (str_eq c.webhook_secret "" ≡ false)
  unfolding init_app
  init_app_passed c e = (ground arith, ground arith, ground arith, ground arith)

  production_passed : (c : Settings) → production ≡ ok c → init_app c ≡ ok tt
  unfolding production
  production_passed c e = elim (Result-cases base_config) [
    | inr (r, failed) ↦ absurd (ground arith)
    | inl (b, read) ↦ elim (Result-cases (init_app b)) [
      | inr (r, failed) ↦ absurd (ground arith)
      | inl (u, passed) ↦ ground arith
    ]
  ]

  pub production_webhook_secret :
      (c : Settings) → production ≡ ok c → str_eq c.webhook_secret "" ≡ false
  production_webhook_secret c e =
      let (url, secret, jwt, webhook) = init_app_passed c (production_passed c e) in webhook
