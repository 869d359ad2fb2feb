-- ===== src/Accounts/Clearing.antt =====
-- What `get_or_create_platform_clearing_account` returns.
use text.Mathlib.TextPositions.{eq_refl}
use paysika.Prelude.{
  first-satisfies, ◌≡◌, true, some, String, arith, first, str_eq, Option-cases, inl, inr,
}
use paysika.Errors.{ok, Result-cases}
use paysika.Store.{State, Db, Account, User, ◌>>=◌}
use paysika.Accounts.{
  find_account, is_clearing, add_account, get_or_create_system_user, get_or_create_clearing_account,
  get_or_create_platform_clearing_account,
}
use paysika.Accounts.Opening.{IsDescending, first-find, Extends-refl, system_user-ExtendsFrom}

-- The account is in the tables under its id, is a system account and has the currency.
pub record IsSystemAccount (currency : String) (c : Account) (d : Db) : Type 0 where
  pub found : find_account c.id d ≡ some c
  pub system : c.is_system ≡ true
  pub same_currency : str_eq c.currency currency ≡ true

clearing_found :
    (u : User) (currency : String) (c : Account) (d : Db)
    → IsDescending d.accounts
    → first (is_clearing u.id currency) d.accounts ≡ some c
    → IsSystemAccount currency c d
clearing_found u currency c d h e =
    let p = first-satisfies (is_clearing u.id currency) d.accounts c e in
    record {
      found = first-find (is_clearing u.id currency) d.accounts c h e;
      system = ground arith;
      same_currency = ground arith;
    }

module _ (u : User) (currency : String) (s : State) (h : IsDescending s.db.accounts) where
  clearing-IsSystemAccount :
      (c : Account)
      → (get_or_create_clearing_account u currency s).0 ≡ ok c
      → IsSystemAccount currency c (get_or_create_clearing_account u currency s).1.db
  unfolding get_or_create_clearing_account add_account ◌>>=◌
  clearing-IsSystemAccount c e =
      elim (Option-cases (first (is_clearing u.id currency) s.db.accounts)) [
        | inr (x, found) ↦
            let held = clearing_found u currency x s.db h found in
            record {
              found = ground (arith, held.found);
              system = ground (arith, held.system);
              same_currency = ground (arith, held.same_currency);
            }
        | inl missing ↦ record {
          found = ground arith;
          system = ground arith;
          same_currency = ground (arith, eq_refl currency);
        }
      ]

-- Where account ids are unique and the call returns an account, that is a system account of the
-- currency, and the tables have it under its id.
pub platform_clearing-IsSystemAccount :
    (currency : String) (s : State) (c : Account)
    → IsDescending s.db.accounts
    → (get_or_create_platform_clearing_account currency s).0 ≡ ok c
    → IsSystemAccount currency c (get_or_create_platform_clearing_account currency s).1.db
unfolding get_or_create_platform_clearing_account ◌>>=◌
platform_clearing-IsSystemAccount currency s c h e =
    let grown = (system_user-ExtendsFrom s.db).at s (Extends-refl s.db h) in
    elim (Result-cases (get_or_create_system_user s).0) [
      | inr (x, failed) ↦ absurd (ground arith)
      | inl (u, opened) ↦
          let after =
            clearing-IsSystemAccount u currency (get_or_create_system_user s).1 grown.ordered c
              (ground arith) in
          record {
            found = ground (arith, after.found);
            system = after.system;
            same_currency = after.same_currency;
          }
    ]
