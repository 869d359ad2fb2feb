-- ===== src/Tests/Deposits.antt =====
-- The pending deposit, confirmed.
use paysika.Prelude.{◌≡◌, refl, some}
use paysika.Prelude.Int.{pos}
use paysika.Errors.{ok, err, invalid_transaction_state}
use paysika.Domain.Enums.{of_value}
use paysika.Store.{State}
use paysika.Ledger.Invariant.{IsLedger}
use paysika.Deposits.{confirm_deposit, fail_deposit, execute_deposit, complete}
use paysika.Deposits.Steps.{confirmed}
use paysika.Deposits.Direct.{execute_deposit-IsLedger}
use paysika.Deposits.States.{confirm_once}
use paysika.Deposits.Success.{IsOpened, confirm_deposit-succeeds}
use paysika.Tests.Data.{
  start, small, small-IsLedger, start-IsReady, purse, clearing, bank, second_deposit,
}

abbrev pub opened : IsOpened "USD" start
opened = record { user = bank; system = refl; account = clearing; clearing = refl }

confirm_deposit-succeeds_example :
    ((confirm_deposit 2 "r1" start).0 ≡ ok (complete "r1" second_deposit))
    × ((confirm_deposit 2 "r1" start).1.db ≡ confirmed "r1" second_deposit purse clearing small)
unfolding of_value
confirm_deposit-succeeds_example =
    confirm_deposit-succeeds 2 "r1" start start-IsReady second_deposit refl refl refl purse refl
      opened refl

confirm_run : (confirm_deposit 2 "r1" start).0 ≡ ok (complete "r1" second_deposit)
unfolding of_value
confirm_run =
    (confirm_deposit-succeeds 2 "r1" start start-IsReady second_deposit refl refl refl purse refl
      opened refl).0

abbrev confirmed_state : State
confirmed_state = (confirm_deposit 2 "r1" start).1

confirm_once_example :
    (confirm_deposit 2 "r2" confirmed_state ≡ (err invalid_transaction_state, confirmed_state))
    × (fail_deposit 2 "r2" confirmed_state ≡ (err invalid_transaction_state, confirmed_state))
confirm_once_example =
    confirm_once 2 "r1" "r2" start (complete "r1" second_deposit) small-IsLedger confirm_run

execute_deposit-IsLedger_example :
    IsLedger (execute_deposit 3 (pos 70_000) "USD" "" (some "d3") start).1.db
execute_deposit-IsLedger_example =
    execute_deposit-IsLedger 3 (pos 70_000) "USD" "" (some "d3") start small-IsLedger
