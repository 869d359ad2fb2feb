-- ===== src/Lib.antt =====
-- The ledger of paysika: accounts in several currencies, transfers between them, deposits that a
-- payment provider confirms, balances from snapshots and entries, and the events that mail customers.
--
-- The parts and the files that model them. A component's file holds its definitions, under the
-- source's names; the files below it hold its proofs.
--   Prelude       numbers, Boolean tests, lists and integers that the other files share
--   Errors        app/utils/exceptions.py: the exceptions, with the status of each
--   Domain        app/domain/enums.py, money.py, events.py
--   Store         app/models: the rows; the state of a request; the actions on it
--   Lock          app/services/lock.py
--   Accounts      app/services/account_service.py
--   EventBus      app/services/event_bus.py and notification_service.py
--   Balance       app/services/balance_service.py
--   Ledger        the steps that the services below write out each: the lookup by idempotency key, the
--                 insert under the unique key, the two entries, and what follows their flush
--   Transfers     app/services/transfer_service.py
--   Deposits      app/services/deposit_service.py
--   Exchange      app/services/fx_service.py and app/services/fx_provider
--   Idempotency   app/services/idempotency_service.py, the decorator of app/utils/decorators.py
--   Queries       app/services/transaction_service.py
--   Schemas       app/schemas: the request bodies, and `validate_request` of app/utils/decorators.py
--   Api           app/api/v1/transfers.py, deposits.py and webhooks.py; Api/Accounts for accounts.py,
--                 Api/Users for auth.py, Api/Receipt for the webhook with its schema's check in front
--   Jobs          app/services/deposit_jobs.py and balance_jobs.py
--   Auth          app/services/auth_service.py
--   MockProvider  mock-provider/app.py, its runs and its posts as webhooks of the application
--   App           the commands and the callbacks of app/__init__.py, app/middleware, and config.py
--   System        the requests and jobs one after the other, the changes that they commit, and the bank
--                 that they implement
--   Tests         concrete tables, and the theorems applied to them
--
-- How they interact. A service runs on the state of one request: the tables as the session sees them,
-- the committed tables, the balance cache, the queued jobs, the subscribed handlers, the locks taken,
-- and a context that nobody writes. It is an `Action`, from a state to a value or an exception and the
-- state then. An exception leaves written what was written before it, as in the source, where the
-- caller rolls back. `execute_transfer` locks both accounts, reads the balance past the cache, inserts
-- the transaction and its two entries, rewrites both cached balances, may queue a snapshot of each and
-- publishes the event; `confirm_deposit` does the same between the clearing account and a customer's.
--
-- The ledger's invariant (`IsLedger` in Ledger/Invariant): every snapshot is the sum of its account's
-- successful entries up to its last one; the entries of each transaction cancel in each currency; no
-- account but a clearing account is overdrawn; account ids are unique.
--
-- Tables are sound (`IsSound` in Balance/Snapshots) where every snapshot is such a sum, every later
-- entry has a larger id, and ids are positive.
--
-- The cache of balances is right (`IsRight` in Ledger/Coherence) where the tables are sound and every
-- cached balance is the account's in the session's tables. An action on a queue that is down can end a
-- request between the cache's write and the commit (Api/Outage).
--
-- How the source is read. A Decimal is a whole number of ten-thousandths, the scale of the columns
-- Numeric(19, 4); amounts with more decimals, which the columns would round, are not represented, and
-- the columns' bound of fifteen digits is left out. A table is a list of rows, the newest first, and a
-- row's id is one more than every id of the table; a query is a recursive function on the list. All
-- functions are structurally recursive, so there is no fuel. A flush that violates a unique
-- constraint raises; with an idempotency key the source catches that and returns the row that has the
-- key. The cache is a map without expiry. What comes from outside is a field of `Context`: the
-- correlation id, a new uuid, the time, the configuration, the system user's password hash, whether
-- the queue's server answers, and whether the database supports row locks.
--
-- An exchange takes its rate from the cache or from a provider, which is a parameter where it asks an
-- HTTP service; the product is rounded to ten-thousandths, half to even, and the precision of 28
-- digits of the decimal context is left out. The handlers of Api run the services, commit or roll
-- back; the digest of a webhook is a parameter, and a request has what its texts read as.
--
-- The program as a whole (System): a `Step` is a request or a job that runs and ends, the decorator of
-- idempotency keys and the removal of the session included; between two of them the context and the
-- cache may be anything. Whatever a step commits is a `Change`, one of eight ways in which the tables
-- may go on, and each is a step of an abstract bank, which has balances and knows which accounts are
-- the platform's. The provider has runs of its own, in which a callback is two steps, since a request
-- may come between its post and its last write; its posts are webhooks without a signature.
--
-- The pages of transactions are flask_sqlalchemy's: `paginate` is a parameter, and `IsPaginate` is what
-- its documentation says of pages from 1 on, of 1 to 100 rows.
--
-- A request's body is what pydantic's coercion makes of each field; `Decimal`, the form of an email, the
-- environment and `int` are parameters. `Schemas` and `Api` are separate: the handlers take a body that
-- has passed, and an amount there is a whole number of ten-thousandths.
--
-- A webhook's step in System is one whose body the schema has accepted; any other raises and changes
-- nothing (Schemas/Requests). The widths of text columns are left out: where a text comes from outside
-- unchecked, the correlation id of a request, the theorem says that it fits.
--
-- Not modelled: texts of log lines and emails and some of the messages; request hashes, password hashes
-- and tokens, which are parameters or fields; Flask's wiring, the settings that only the libraries read,
-- logging and the documentation's routes; the sending of emails and the workers' loop; migrations.
-- Requests run one at a time; two interleaved sessions appear only in Deposits/Stale, where one goes on
-- with a row that it read before the other committed, and in the order in which a session takes its
-- locks.
pub mod Prelude
pub mod Errors
pub mod Domain
pub mod Store
pub mod Lock
pub mod Accounts
pub mod EventBus
pub mod Balance
pub mod Ledger
pub mod Transfers
pub mod Deposits
pub mod Exchange
pub mod Idempotency
pub mod Api
pub mod Jobs
pub mod Auth
pub mod Queries
pub mod MockProvider
pub mod System
pub mod Schemas
pub mod App
pub mod Tests
