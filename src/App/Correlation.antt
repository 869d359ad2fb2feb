-- ===== src/App/Correlation.antt =====
-- The correlation id of a request, from its header to the row that it writes.
use paysika.Prelude.{
  length, ◌≤◌, str_eq, ℕ, ◌≡◌, ◌≢◌, String, Option, none, some, false, refl, arith,
}
use paysika.Prelude.Int.{ℤ, pos, ◌<ℤ◌}
use paysika.Errors.{ok}
use paysika.Store.{State, Transaction}
use paysika.Balance.Snapshots.{IsSound}
use paysika.Ledger.{find_existing, key_taken}
use paysika.Transfers.{execute_transfer}
use paysika.Transfers.Outcome.{transferred}
use paysika.Schemas.{codes}
use paysika.Transfers.Steps.{IsCovered}
use paysika.Transfers.Success.{IsReady, execute_transfer-succeeds}
use paysika.App.{extract_correlation_id, with_correlation_id}

-- A transfer without a key inside a request whose correlation id fits its column, from sound tables,
-- between different accounts with the funds, with the queue up and the handlers registered, succeeds, and
-- the tables are the old ones with its entries and its row, which is written under the id that the
-- answer's header has; and that is the one of the request's header, if it is set.
pub with_correlation_id-transfer :
    (header : Option String) (hex : String) (source target : ℕ) (amount : ℤ)
    (currency description : String) (s : State)
    → length (codes (extract_correlation_id header hex)) ≤ 64
    → IsSound s.db
    → IsCovered source target amount currency s.db
    → IsReady s
    → source ≢ target
    → pos 0 <ℤ amount
    → let handler = execute_transfer source target amount currency description none in
      let ((id, r), s') = with_correlation_id header hex handler s in
      (t : Transaction) × (r ≡ ok t)
      × (t.correlation_id ≡ id)
      × (s'.db ≡ transferred source target amount currency description none id s.context.now s.db)
      × ((text : String) → header ≡ some text → str_eq text "" ≡ false → id ≡ text)
unfolding with_correlation_id extract_correlation_id find_existing key_taken
with_correlation_id-transfer header hex source target amount currency description s fits sound
      covered ready apart positive =
    let id = extract_correlation_id header hex in
    let inside : State = record s { context = record s.context { correlation_id = some id } } in
    let done =
      execute_transfer-succeeds source target amount currency description none inside sound covered
        (record { queue = ready.queue; wired = ready.wired }) apart positive refl refl in
    (_, done.0, refl, done.1, λ text given set. ground arith)
