-- ===== src/App/Cleanup.antt =====
-- What the cleanup of idempotency records removes and keeps.
use paysika.Prelude.{
  ◌≤◌, ◌*◌, true, IsSelection, select-IsSelection, ℕ, ◌+◌, ◌≡◌, Bool, not, List, [], ◌∷◌, select,
  length, arith,
}
use paysika.Errors.{ok}
use paysika.Store.{State, IdempotencyRecord, ◌>>=◌}
use paysika.App.{is_old, cleanup_idempotency}

length-split :
    (p : IdempotencyRecord → Bool) (rs : List IdempotencyRecord)
    → length (select p rs) + length (select (λ r. not (p r)) rs) ≡ length rs
length-split p [] = omega arith
length-split p (r ∷ rs) = ground (arith, length-split p rs)

-- A record that was made at most the given hours ago.
abbrev pub IsRecent : ℕ → ℕ → IdempotencyRecord → Type 0
IsRecent hours now r = now ≤ r.created_at + hours * 60 * 60 * 1_000_000

hour : (n : ℕ) → n * 60 * 60 * 1_000_000 ≡ n * 3_600_000_000
hour n = omega arith

module _ (hours now : ℕ) (r : IdempotencyRecord) where
  is_old-IsRecent : not (is_old hours now r) ≡ true → IsRecent hours now r
  is_old-IsRecent e = ground (arith, hour hours)

  IsRecent-is_old : IsRecent hours now r → not (is_old hours now r) ≡ true
  IsRecent-is_old h = ground (arith, h, hour hours)

-- The cleanup answers the number of records that it removes from the committed table; what stays are
-- the records that were made at most the given hours ago, all of them, and nothing else in the tables
-- changes.
pub cleanup_idempotency_lem :
    (hours : ℕ) (s : State)
    → s.db ≡ s.committed
    → (n : ℕ) × (after : List IdempotencyRecord) × ((cleanup_idempotency hours s).0 ≡ ok n)
      × ((cleanup_idempotency hours s).1.committed
          ≡ record s.committed { idempotency_records = after })
      × (n + length after ≡ length s.committed.idempotency_records)
      × IsSelection (IsRecent hours s.context.now) s.committed.idempotency_records after
unfolding cleanup_idempotency ◌>>=◌
cleanup_idempotency_lem hours s clean =
    let old = is_old hours s.context.now in
    let records = s.committed.idempotency_records in
    (
      length (select old records),
      select (λ r. not (old r)) records,
      ground (arith, clean),
      ground (arith, clean),
      length-split old records,
      select-IsSelection (λ r. not (old r)) (IsRecent hours s.context.now)
          (is_old-IsRecent hours s.context.now) (IsRecent-is_old hours s.context.now) records,
    )
