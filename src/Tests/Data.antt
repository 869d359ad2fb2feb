-- ===== src/Tests/Data.antt =====
-- Two customers and the clearing account in USD, a confirmed deposit with its entries and a snapshot,
-- and a deposit that is pending.
use paysika.Prelude.{inl, true, false, some, [], ◌∷◌, arith, refl}
use paysika.Prelude.Int.{◌+ℤ◌, int_laws, neg, pos, negsuc}
use paysika.Domain.Enums.{debit, credit}
use paysika.Store.{next_id, State, Db, Context, Account, User, Transaction, BalanceSnapshot}
use paysika.Ledger.{entry}
use paysika.Ledger.Invariant.{IsLedger, posted-IsLedger}
use paysika.Balance.Snapshots.{IsSound}
use paysika.Deposits.{pending_row, completed_row}
use paysika.EventBus.Delivery.{registered}
use paysika.Transfers.Success.{IsReady}
use paysika.Balance.{sum_where}

abbrev pub bank : User
bank = record { id = 1; username = "__system__"; email = "system@internal"; password_hash = "h" }

abbrev pub alice : User
alice = record { id = 2; username = "alice"; email = "alice@mail.test"; password_hash = "h" }

abbrev pub bob : User
bob = record { id = 3; username = "bob"; email = "bob@mail.test"; password_hash = "h" }

abbrev pub clearing : Account
clearing = record { id = 1; user_id = 1; currency = "USD"; name = "CLEARING"; is_system = true }

abbrev pub purse : Account
purse = record { id = 2; user_id = 2; currency = "USD"; name = "Alice"; is_system = false }

abbrev pub savings : Account
savings = record { id = 3; user_id = 3; currency = "USD"; name = "Bob"; is_system = false }

-- The deposits of 50 USD to Alice.
abbrev pub first_deposit : Transaction
first_deposit = completed_row (pos 500_000) "USD" "" (some "d1") "c1" 10 1

abbrev pub second_deposit : Transaction
second_deposit = pending_row 2 (pos 500_000) "USD" "" (some "d2") "mock" "c2" 20 2

abbrev pub snapshot : BalanceSnapshot
snapshot = record {
  id = 1;
  account_id = 2;
  balance = pos 500_000;
  entry_count = 1;
  last_entry_id = some 2;
}

abbrev pub small : Db
small = record {
  users = bob ∷ alice ∷ bank ∷ [];
  accounts = savings ∷ purse ∷ clearing ∷ [];
  transactions = second_deposit ∷ first_deposit ∷ [];
  entries = entry 2 1 (pos 500_000) credit "USD" 2 ∷ entry 1 1 (negsuc 499_999) debit "USD" 1 ∷ [];
  snapshots = snapshot ∷ [];
  idempotency_records = [];
}

abbrev pub request : Context
request = record {
  correlation_id = some "c3";
  uuid = "u";
  now = 30;
  snapshot_threshold = 100;
  clearing_name = "CLEARING";
  system_password_hash = "h";
  queue_up = true;
  for_update = true;
}

abbrev pub start : State
start = record {
  context = request;
  db = small;
  committed = small;
  locks = [];
  balance_cache = [];
  idempotency_cache = [];
  fx_cache = [];
  jobs = [];
  handlers = registered;
}

-- The same with the queue down.
abbrev pub outage : State
outage = record start { context = record request { queue_up = false } }

-- The same before the first deposit was posted.
abbrev bare : Db
bare = record small { entries = []; snapshots = [] }

bare-IsLedger : IsLedger bare
unfolding sum_where
bare-IsLedger = record {
  sound = record { exact = tt; positive = tt };
  balanced = λ t c. refl;
  solvent = λ a user. omega int_laws;
  ordered = ((ground arith, (ground arith, tt)), ((ground arith, tt), (tt, tt)));
}

-- The deposit is posted from the clearing account.
credited-IsLedger : IsLedger (record small { snapshots = [] })
unfolding next_id neg
credited-IsLedger =
    posted-IsLedger 1 2 1 (pos 500_000) "USD" bare (omega int_laws) (inl refl) bare-IsLedger

pub small-IsSound : IsSound small
unfolding sum_where ◌+ℤ◌ next_id
small-IsSound = record {
  exact = (record { holds = refl; past = ground arith }, tt);
  positive = (ground arith, (ground arith, tt));
}

pub small-IsLedger : IsLedger small
small-IsLedger = record {
  sound = small-IsSound;
  balanced = credited-IsLedger.balanced;
  solvent = credited-IsLedger.solvent;
  ordered = credited-IsLedger.ordered;
}

pub start-IsReady : IsReady start
start-IsReady = record { queue = refl; wired = refl }
