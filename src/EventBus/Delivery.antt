-- ===== src/EventBus/Delivery.antt =====
-- What publishing an event writes: emails on the queue, and nothing in the tables.
use mathlib.Core.List.{append-nil}
use paysika.Prelude.{
  ℕ, ◌∙◌, refl, ap, false, ◌≡◌, String, true, Option, List, [], ◌∷◌, ◌++◌, arith, if◌then◌else◌,
}
use paysika.Errors.{queue_error, err, Result, ok}
use paysika.Domain.Events.{
  type_of, Event, EventType, transfer_completed, transfer_failed, deposit_completed,
  deposit_initiated, deposit_failed, transfer_completed_type, transfer_failed_type,
  deposit_completed_type, deposit_failed_type,
}
use paysika.Store.{
  LedgerEntry, Transaction, State, Db, Job, Handler, on_transfer_completed, on_transfer_failed,
  on_deposit_completed, on_deposit_failed, send_email, enqueue, is_set, ◌>>=◌,
}
use paysika.Store.Keeps.{Keeps, Untouched, Keeps-bind, Keeps-if, keeps_rules}
use paysika.EventBus.{get_user_email, present, send, send_to_one, handle, run_handlers, publish}
use paysika.Prelude.Int.{ℤ}

enqueue-Keeps : (j : Job) (o : State) → Keeps (Untouched o) (enqueue j)
unfolding enqueue
enqueue-Keeps j d = record { at = λ s h. ground arith }

send-Keeps : (e : Event) (to : List String) (o : State) → Keeps (Untouched o) (send e to)
unfolding send
send-Keeps e [] d = search keeps_rules
send-Keeps e (r ∷ to) d = enqueue-Keeps _ d

send_to_one-Keeps :
    (e : Event) (to : Option String) (o : State) → Keeps (Untouched o) (send_to_one e to)
unfolding send_to_one
send_to_one-Keeps e to d = search (keeps_rules, send-Keeps)

handle-Keeps : (h : Handler) (e : Event) (o : State) → Keeps (Untouched o) (handle h e)
unfolding handle
handle-Keeps on_transfer_completed (transfer_completed t s g a c) d =
    search (keeps_rules, send-Keeps)
handle-Keeps on_transfer_failed (transfer_failed t s g a c r) d =
    search (keeps_rules, send_to_one-Keeps)
handle-Keeps on_deposit_completed (deposit_completed t a m c) d =
    search (keeps_rules, send_to_one-Keeps)
handle-Keeps on_deposit_failed (deposit_failed t a m c r) d =
    search (keeps_rules, send_to_one-Keeps)
handle-Keeps _ _ d = search keeps_rules

run_handlers-Keeps :
    (hs : List (EventType × Handler)) (e : Event) (o : State)
    → Keeps (Untouched o) (run_handlers hs e)
unfolding run_handlers
run_handlers-Keeps [] e d = search keeps_rules
run_handlers-Keeps ((t, h) ∷ hs) e d =
    let rest = run_handlers-Keeps hs e d in
    Keeps-if _ _ _ (Keeps-bind _ _ (handle-Keeps h e d) (λ _. rest)) rest

-- Publishing an event leaves the tables alone.
pub publish-Keeps : (e : Event) (o : State) → Keeps (Untouched o) (publish e)
unfolding publish
publish-Keeps e d = search (keeps_rules, run_handlers-Keeps)

-- The handlers that `create_app` registers, in order.
abbrev pub registered : List (EventType × Handler)
registered =
    (transfer_completed_type, on_transfer_completed)
    ∷ (transfer_failed_type, on_transfer_failed)
    ∷ (deposit_completed_type, on_deposit_completed)
    ∷ (deposit_failed_type, on_deposit_failed)
    ∷ []

-- Whom the handlers write to.
abbrev pub only_set : Option String → List String
only_set to = if is_set to then present (to ∷ []) else []

abbrev pub recipients : Event → Db → List String
recipients (transfer_completed t source target a c) d =
    present (get_user_email source d ∷ get_user_email target d ∷ [])
recipients (transfer_failed t source target a c r) d = only_set (get_user_email source d)
recipients (deposit_completed t account a c) d = only_set (get_user_email account d)
recipients (deposit_initiated t account a c) d = []
recipients (deposit_failed t account a c r) d = only_set (get_user_email account d)

abbrev pub mails : Event → List String → List Job
mails e [] = []
mails e (r ∷ rs) = send_email e (r ∷ rs) ∷ []

send_lem :
    (e : Event) (to : List String) (s : State)
    → s.context.queue_up ≡ true
    → send e to s ≡ (ok tt, record s { jobs = s.jobs ++ mails e to })
unfolding send enqueue ◌>>=◌
send_lem e [] s up = rw append-nil
send_lem e (r ∷ to) s up = ground arith

-- The answer of a call that mails these recipients while the queue is down.
abbrev pub refused : List String → Result Unit
refused [] = ok tt
refused (r ∷ rs) = err queue_error

send_down :
    (e : Event) (to : List String) (s : State)
    → s.context.queue_up ≡ false
    → send e to s ≡ (refused to, s)
unfolding send enqueue ◌>>=◌
send_down e [] s down = refl
send_down e (r ∷ to) s down = ground arith

module _ (e : Event) (to : Option String) (s : State) where
  send_to_one_lem :
      s.context.queue_up ≡ true
      → send_to_one e to s ≡ (ok tt, record s { jobs = s.jobs ++ mails e (only_set to) })
  unfolding send_to_one
  send_to_one_lem up = ground (arith, send_lem e (present (to ∷ [])) s up, send_lem e [] s up)

  send_to_one_down : s.context.queue_up ≡ false → send_to_one e to s ≡ (refused (only_set to), s)
  unfolding send_to_one
  send_to_one_down down =
      ground (arith, send_down e (present (to ∷ [])) s down, send_down e [] s down)

run_registered :
    (e : Event) (s : State)
    → s.context.queue_up ≡ true
    → run_handlers registered e s
      ≡ (ok tt, record s { jobs = s.jobs ++ mails e (recipients e s.db) })
unfolding run_handlers handle send_to_one type_of ◌>>=◌
run_registered (transfer_completed t source target a c) s up = ground (
  arith,
  send_lem (transfer_completed t source target a c)
      (recipients (transfer_completed t source target a c) s.db) s up,
)
run_registered (transfer_failed t source target a c r) s up = ground (
  arith,
  send_to_one_lem (transfer_failed t source target a c r) (get_user_email source s.db) s up,
)
run_registered (deposit_completed t account a c) s up =
    ground
      (arith, send_to_one_lem (deposit_completed t account a c) (get_user_email account s.db) s up)
run_registered (deposit_initiated t account a c) s up = rw append-nil
run_registered (deposit_failed t account a c r) s up =
    ground
      (arith, send_to_one_lem (deposit_failed t account a c r) (get_user_email account s.db) s up)

run_registered_down :
    (e : Event) (s : State)
    → s.context.queue_up ≡ false
    → run_handlers registered e s ≡ (refused (recipients e s.db), s)
unfolding run_handlers handle send_to_one type_of ◌>>=◌
run_registered_down (transfer_completed t source target a c) s down = ground (
  arith,
  send_down (transfer_completed t source target a c)
      (recipients (transfer_completed t source target a c) s.db) s down,
)
run_registered_down (transfer_failed t source target a c r) s down = ground (
  arith,
  send_to_one_down (transfer_failed t source target a c r) (get_user_email source s.db) s down,
)
run_registered_down (deposit_completed t account a c) s down =
    ground (
      arith,
      send_to_one_down (deposit_completed t account a c) (get_user_email account s.db) s down,
    )
run_registered_down (deposit_initiated t account a c) s down = refl
run_registered_down (deposit_failed t account a c r) s down =
    ground (
      arith,
      send_to_one_down (deposit_failed t account a c r) (get_user_email account s.db) s down,
    )

module _ (e : Event) (s : State) (wired : s.handlers ≡ registered) where
  -- With the registered handlers and the queue up, publishing an event appends one email job for the
  -- recipients of the event, none where there are no recipients, and changes nothing else.
  pub publish_lem :
      s.context.queue_up ≡ true
      → publish e s ≡ (ok tt, record s { jobs = s.jobs ++ mails e (recipients e s.db) })
  unfolding publish ◌>>=◌
  publish_lem up = ap (λ hs. run_handlers hs e s) wired ∙ run_registered e s up

  -- With the registered handlers and the queue down, publishing an event changes nothing, and raises
  -- the queue's error exactly if the event has a recipient.
  pub publish_down : s.context.queue_up ≡ false → publish e s ≡ (refused (recipients e s.db), s)
  unfolding publish ◌>>=◌
  publish_down down = ap (λ hs. run_handlers hs e s) wired ∙ run_registered_down e s down

-- No handler is registered for the initiation of a deposit, so its event is published whether or not
-- the queue is up.
pub publish_initiated :
    (t account : ℕ) (amount : ℤ) (currency : String) (s : State)
    → s.handlers ≡ registered
    → publish (deposit_initiated t account amount currency) s ≡ (ok tt, s)
unfolding publish run_handlers ◌>>=◌ type_of
publish_initiated t account amount currency s wired =
    ap (λ hs. run_handlers hs (deposit_initiated t account amount currency) s) wired

-- The recipients are read from the accounts and the users only.
pub recipients-posted :
    (e : Event) (d : Db) (entries : List LedgerEntry) (transactions : List Transaction)
    → recipients e (record d { entries = entries; transactions = transactions }) ≡ recipients e d
unfolding get_user_email ◌>>=◌
recipients-posted (transfer_completed t s g a c) d entries transactions = refl
recipients-posted (transfer_failed t s g a c r) d entries transactions = refl
recipients-posted (deposit_completed t a m c) d entries transactions = refl
recipients-posted (deposit_initiated t a m c) d entries transactions = refl
recipients-posted (deposit_failed t a m c r) d entries transactions = refl
