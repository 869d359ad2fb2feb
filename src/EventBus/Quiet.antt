-- ===== src/EventBus/Quiet.antt =====
-- Events leave the cached balances alone.
use paysika.Prelude.{String, Option, List, [], ◌∷◌, arith}
use paysika.Domain.Events.{
  Event, EventType, transfer_completed, transfer_failed, deposit_completed, deposit_failed,
}
use paysika.Store.{
  State, Job, Handler, on_transfer_completed, on_transfer_failed, on_deposit_completed,
  on_deposit_failed, enqueue,
}
use paysika.Store.Keeps.{Keeps, IsQuiet, Keeps-bind, Keeps-if, keeps_rules}
use paysika.EventBus.{send, send_to_one, handle, run_handlers, publish}

enqueue-IsQuiet : (j : Job) (o : State) → Keeps (IsQuiet o) (enqueue j)
unfolding enqueue
enqueue-IsQuiet j d = record { at = λ s h. ground (arith, h.db, h.cache) }

send-IsQuiet : (e : Event) (to : List String) (o : State) → Keeps (IsQuiet o) (send e to)
unfolding send
send-IsQuiet e [] d = search keeps_rules
send-IsQuiet e (r ∷ to) d = enqueue-IsQuiet _ d

send_to_one-IsQuiet :
    (e : Event) (to : Option String) (o : State) → Keeps (IsQuiet o) (send_to_one e to)
unfolding send_to_one
send_to_one-IsQuiet e to d = search (keeps_rules, send-IsQuiet)

handle-IsQuiet : (h : Handler) (e : Event) (o : State) → Keeps (IsQuiet o) (handle h e)
unfolding handle
handle-IsQuiet on_transfer_completed (transfer_completed t s g a c) d =
    search (keeps_rules, send-IsQuiet)
handle-IsQuiet on_transfer_failed (transfer_failed t s g a c r) d =
    search (keeps_rules, send_to_one-IsQuiet)
handle-IsQuiet on_deposit_completed (deposit_completed t a m c) d =
    search (keeps_rules, send_to_one-IsQuiet)
handle-IsQuiet on_deposit_failed (deposit_failed t a m c r) d =
    search (keeps_rules, send_to_one-IsQuiet)
handle-IsQuiet _ _ d = search keeps_rules

run_handlers-IsQuiet :
    (hs : List (EventType × Handler)) (e : Event) (o : State)
    → Keeps (IsQuiet o) (run_handlers hs e)
unfolding run_handlers
run_handlers-IsQuiet [] e d = search keeps_rules
run_handlers-IsQuiet ((t, h) ∷ hs) e d =
    let rest = run_handlers-IsQuiet hs e d in
    Keeps-if _ _ _ (Keeps-bind _ _ (handle-IsQuiet h e d) (λ _. rest)) rest

-- Publishing an event leaves the tables and the cached balances alone.
pub publish-IsQuiet : (e : Event) (o : State) → Keeps (IsQuiet o) (publish e)
unfolding publish
publish-IsQuiet e d = search (keeps_rules, run_handlers-IsQuiet)
