-- ===== src/System/Refinement.antt =====
-- The program refines the bank.
use paysika.Store.{State}
use paysika.System.Bank.{Bank, BankStep, bank_of}
use paysika.System.Refines.{Change-BankStep}
use paysika.System.Steps.{Setting, Run, here, next, IsAtRest, Step-Commits, Run-IsAtRest}

-- Steps of the bank in turn.
pub data BankRun : Bank → Bank → Type 0 where
  stays : {b : Bank} → BankRun b b
  steps : {a b c : Bank} → BankRun a b → BankStep b c → BankRun a c

-- Every run of requests and jobs from rest, in any order and with any requests, successful or not, is
-- a run of the bank on the committed tables: in each step all balances stay, or one positive amount
-- moves between two accounts of which the payer holds it or is the platform's.
pub Run-BankRun :
    (x : Setting) {s t : State}
    → Run x s t
    → IsAtRest s
    → BankRun (bank_of s.committed) (bank_of t.committed)
Run-BankRun x here h = stays
Run-BankRun x (next run step) h =
    steps (Run-BankRun x run h)
      (Change-BankStep (Step-Commits x step (Run-IsAtRest x run h)).change)
