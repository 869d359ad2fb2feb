-- ===== src/System/Bank.antt =====
-- The bank that the program implements: what it promises of balances, with no rows, snapshots,
-- transactions or caches.
use paysika.Prelude.{
  String, ℕ, Bool, true, false, ◌≡◌, ◌≢◌, ◌⊎◌, inl, inr, refl, ◌==◌, if◌then◌else◌, arith,
  Bool-cases, ==→≡,
}
use paysika.Prelude.Int.{ℤ, pos, ◌<ℤ◌, ◌≤ℤ◌, ◌+ℤ◌, ◌-ℤ◌}
use paysika.Store.{Db}
use paysika.Balance.Reads.{balance_of}
use paysika.Accounts.Opening.{is_clearing_id}
use paysika.Ledger.Sums.{posted, sum-posted, sum-posted_self}

-- Balances by account, and the accounts that are the platform's own.
pub record Bank : Type 0 where
  pub balance : ℕ → ℤ
  pub is_platform : ℕ → Bool

-- What the tables are, seen as a bank.
abbrev pub bank_of : Db → Bank
bank_of d = record { balance = λ a. balance_of a d; is_platform = λ a. is_clearing_id a d }

-- A positive amount goes from one account to another; the one that pays is the platform's or has it.
pub record Moves (b b' : Bank) : Type 0 where
  pub payer : ℕ
  pub payee : ℕ
  pub amount : ℤ
  pub apart : payer ≢ payee
  pub positive : pos 0 <ℤ amount
  pub funded : (b'.is_platform payer ≡ true) ⊎ (amount ≤ℤ b.balance payer)
  pub moved :
      (a : ℕ)
      → b'.balance a ≡ (
          if a == payer
          then b.balance a -ℤ amount
          else if a == payee
          then b.balance a +ℤ amount
          else b.balance a)

-- One step of the bank: all balances stay, or one amount moves; an account stays the platform's.
pub record BankStep (b b' : Bank) : Type 0 where
  pub kept : (a : ℕ) → b'.is_platform a ≡ false → b.is_platform a ≡ false
  pub effect : ((a : ℕ) → b'.balance a ≡ b.balance a) ⊎ Moves b b'

-- Tables with the same entries and at least the same accounts take no step of the balances.
pub still :
    (d d' : Db)
    → d'.entries ≡ d.entries
    → ((a : ℕ) → is_clearing_id a d' ≡ false → is_clearing_id a d ≡ false)
    → BankStep (bank_of d) (bank_of d')
still d d' same others = record { kept = others; effect = inl (λ a. rw same refl) }

-- A double entry over the entries of given tables is a step.
pub posted-BankStep :
    (d d' : Db) (debited credited t : ℕ) (amount : ℤ) (currency : String)
    → pos 0 <ℤ amount
    → (is_clearing_id debited d' ≡ true) ⊎ (amount ≤ℤ balance_of debited d)
    → d'.entries ≡ posted debited credited t amount currency d.entries
    → ((a : ℕ) → is_clearing_id a d' ≡ false → is_clearing_id a d ≡ false)
    → BankStep (bank_of d) (bank_of d')
posted-BankStep d d' debited credited t amount currency positive funded e others =
    elim (Bool-cases (debited == credited)) [
      | inl self ↦ record {
        kept = others;
        effect = inl (λ a. rw e (
            sum-posted_self debited credited t amount currency d.entries
              (==→≡ debited credited self) a));
      }
      | inr apart ↦ record {
        kept = others;
        effect = inr (record {
          payer = debited;
          payee = credited;
          amount = amount;
          apart = λ same. ground arith;
          positive = positive;
          funded = funded;
          moved = λ a.
              rw e
                (sum-posted debited credited t amount currency d.entries (λ same. ground arith) a);
        });
      }
    ]
