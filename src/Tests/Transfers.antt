-- ===== src/Tests/Transfers.antt =====
-- Transfers between Alice and Bob.
use paysika.Prelude.{◌≡◌, ◌≢◌, ◌⊎◌, refl, some, none, arith}
use paysika.Prelude.Int.{◌+ℤ◌, pos, int_laws, ◌<ℤ◌}
use paysika.Errors.{ok, err, insufficient_funds}
use paysika.Ledger.{key_taken, find_existing}
use paysika.Ledger.Invariant.{IsLedger}
use paysika.Transfers.{execute_transfer}
use paysika.Transfers.Steps.{IsCovered}
use paysika.Transfers.Outcome.{execute_transfer-outcome, IsTransferred, transferred}
use paysika.Transfers.Ledger.{execute_transfer-IsLedger}
use paysika.Transfers.Success.{execute_transfer-succeeds, new_row}
use paysika.Transfers.Refusals.{execute_transfer-refused, execute_transfer_replayed, refusal}
use paysika.Domain.Enums.{of_value, usd}
use paysika.Ledger.{key_taken}
use paysika.Tests.Data.{start, small, small-IsLedger, small-IsSound, start-IsReady, purse, savings}
use paysika.Balance.{sum_where}

execute_transfer-IsLedger_example :
    IsLedger (execute_transfer 2 3 (pos 200_000) "USD" "rent" (some "k") start).1.db
execute_transfer-IsLedger_example =
    execute_transfer-IsLedger 2 3 (pos 200_000) "USD" "rent" (some "k") start small-IsLedger

execute_transfer-outcome_example :
    let d = (execute_transfer 2 3 (pos 200_000) "USD" "rent" (some "k") start).1.db in
    (d ≡ small)
    ⊎ ((purse.id ≢ savings.id)
        × (pos 0 <ℤ pos 200_000)
        × IsTransferred 2 3 (pos 200_000) "USD" "rent" (some "k") small d)
execute_transfer-outcome_example =
    execute_transfer-outcome 2 3 (pos 200_000) "USD" "rent" (some "k") start small-IsSound

pub covered : IsCovered 2 3 (pos 200_000) "USD" small
unfolding sum_where ◌+ℤ◌ of_value
covered = record {
  source_account = (purse, refl, refl);
  target_account = (savings, refl, refl);
  supported = (usd, refl);
  funds = omega int_laws;
}

pub apart : purse.id ≢ savings.id
apart = ground arith

pub positive : pos 0 <ℤ pos 200_000
positive = omega int_laws

fresh : find_existing (some "k") small ≡ none
unfolding find_existing
fresh = refl

free : key_taken (some "k") small ≡ none
unfolding key_taken
free = refl

execute_transfer-succeeds_example :
    ((execute_transfer 2 3 (pos 200_000) "USD" "rent" (some "k") start).0
      ≡ ok (new_row 2 3 (pos 200_000) "USD" "rent" (some "k") start))
    × ((execute_transfer 2 3 (pos 200_000) "USD" "rent" (some "k") start).1.db
        ≡ transferred 2 3 (pos 200_000) "USD" "rent" (some "k") "c3" 30 small)
execute_transfer-succeeds_example =
    execute_transfer-succeeds 2 3 (pos 200_000) "USD" "rent" (some "k") start small-IsSound covered
      start-IsReady apart positive fresh free

-- Alice holds 50 USD.
too_much : refusal 2 3 (pos 500_001) "USD" small ≡ some insufficient_funds
unfolding refusal of_value sum_where ◌+ℤ◌
too_much = refl

execute_transfer-refused_example :
    ((execute_transfer 2 3 (pos 500_001) "USD" "rent" (some "k") start).0 ≡ err insufficient_funds)
    × ((execute_transfer 2 3 (pos 500_001) "USD" "rent" (some "k") start).1.db ≡ small)
execute_transfer-refused_example =
    execute_transfer-refused 2 3 (pos 500_001) "USD" start small-IsSound "rent" (some "k")
      insufficient_funds apart (omega int_laws) fresh too_much

execute_transfer_replayed_example :
    let s' = (execute_transfer 2 3 (pos 200_000) "USD" "rent" (some "k") start).1 in
    execute_transfer 3 2 (pos 1) "USD" "again" (some "k") s'
    ≡ (ok (new_row 2 3 (pos 200_000) "USD" "rent" (some "k") start), s')
execute_transfer_replayed_example =
    execute_transfer_replayed 2 3 (pos 200_000) "USD" "rent" "k" start small-IsSound covered
      start-IsReady apart positive refl fresh 3 2 (pos 1) "USD" "again" (ground arith)
      (omega int_laws)
