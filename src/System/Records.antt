-- ===== src/System/Records.antt =====
-- The table of idempotency records over a run.
use paysika.Prelude.{◌≡◌, ◌∙◌, refl, arith}
use paysika.Store.{Db, State}
use paysika.Balance.{new_snapshot}
use paysika.Balance.Snapshots.{add_snapshot_else}
use paysika.System.Changes.{
  Change, same, opens, transfers, initiates, confirms, fails, notes, snaps,
}
use paysika.System.Steps.{Setting, Run, here, next, IsAtRest, Step-Commits, Run-IsAtRest}

Change-records : {d d' : Db} → Change d d' → d'.idempotency_records ≡ d.idempotency_records
Change-records same = refl
Change-records (opens x) = x.idempotency_records
Change-records (transfers source target amount currency description key apart positive x) =
    ground (arith, x.tables)
Change-records (initiates account_id amount currency description key provider c now positive) = refl
Change-records (confirms i ref x) = ground (arith, x.tables, x.grown.idempotency_records)
Change-records (fails i t found pending) = refl
Change-records (notes i payment_id) = refl
Change-records {d} (snaps threshold a) = (add_snapshot_else (new_snapshot threshold a d) d).3

-- No run of requests and jobs from rest writes the table of idempotency records, although every request
-- with a key hands its response to `save_response`: the record is added after the handler's commit and
-- is lost with the session, so that only the cache can answer a repeated request.
pub Run-records :
    (x : Setting) {s t : State}
    → Run x s t
    → IsAtRest s
    → t.committed.idempotency_records ≡ s.committed.idempotency_records
Run-records x here h = refl
Run-records x (next run step) h =
    Change-records (Step-Commits x step (Run-IsAtRest x run h)).change ∙ Run-records x run h
