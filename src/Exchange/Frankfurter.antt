-- ===== src/Exchange/Frankfurter.antt =====
-- app/services/fx_provider/frankfurter.py: the provider that asks an HTTP service.
use Prim.Native.String as Text
use paysika.Prelude.{ℕ, ◌≡◌, String, Option, none, some, false, arith, str_eq}
use paysika.Prelude.Int.{ℤ, leb_ℤ, pos}
use paysika.Errors.{err, currency_mismatch}
use paysika.Store.{State, Rate, ◌>>=◌}
use paysika.Ledger.{find_existing}
use paysika.Exchange.{
  Provider, cached_rate, get_provider, fetch_rate, get_exchange_rate, execute_fx_transfer,
}

abbrev pub api_base_url : String
api_base_url = "https://api.frankfurter.dev/v2"

-- `get` answers the text of the field `rate` of the answer to a request, and none where the request, its
-- status or its body raises; `decimal` is `Decimal`, none where it raises. Whatever raises is no rate.
module _ (get : String → Option String) (decimal : String → Option Rate) where
  pub frankfurter_rate : String → Provider
  frankfurter_rate base_url source target =
      elim (get
        (Text.◌++◌ base_url (Text.◌++◌ "/rate/" (Text.◌++◌ source (Text.◌++◌ "/" target))))) [
          | none ↦ none
          | some rate ↦ decimal rate
        ]

module _ (frankfurter : Provider) (source target : ℕ) (amount : ℤ) (sc tc description : String)
    (key : Option String) (s : State) where
  -- Where the service gives no rate and none is cached, an exchange of a positive amount between two
  -- currencies under a fresh key raises and changes nothing.
  pub execute_fx_transfer_unavailable :
      str_eq sc tc ≡ false
      → leb_ℤ amount (pos 0) ≡ false
      → find_existing key s.db ≡ none
      → cached_rate sc tc s.fx_cache ≡ none
      → frankfurter sc tc ≡ none
      → execute_fx_transfer source target amount sc tc frankfurter "frankfurter" description key s
        ≡ (err currency_mismatch, s)
  unfolding execute_fx_transfer get_exchange_rate fetch_rate get_provider ◌>>=◌
  execute_fx_transfer_unavailable apart positive fresh uncached missing = ground arith
