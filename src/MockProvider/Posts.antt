-- ===== src/MockProvider/Posts.antt =====
-- What the provider posts to the webhook over a run.
use paysika.Prelude.{
  sym, String, Bool, Option, some, List, [], ◌∷◌, ◌≡◌, inl, inr, refl, ◌∙◌, All, arith,
  Option-cases, ◌++◌,
}
use paysika.Prelude.Int.{ltb_ℤ, ℤ}
use paysika.MockProvider.{
  Provider, Payment, Payload, Post, find, event_name, event_status, callback_post, callback_end,
  create_payment, trigger_payment, trigger, configure, new_payload, read_outcome,
}
use paysika.MockProvider.Runs.{
  Step, creates, posts, ends, triggers, configures, Run, here, next, Advances, Step-Advances,
}

-- A payload is about a payment: its reference, amount and currency are the payment's, and the status
-- that it reports is the one of its event.
pub record IsOfPayment (p : Provider) (sent : Payload) : Type 0 where
  pub id : String
  pub payment : Payment
  pub found : find id p ≡ some payment
  pub reference_id : sent.reference_id ≡ payment.reference_id
  pub amount : sent.amount ≡ payment.amount
  pub currency : sent.currency ≡ payment.currency
  pub is_failure : Bool
  pub event : sent.event_type ≡ event_name is_failure
  pub status : sent.status ≡ event_status is_failure

IsOfPayment-Advances :
    (p q : Provider) (sent : Payload) → Advances p q → IsOfPayment p sent → IsOfPayment q sent
IsOfPayment-Advances p q sent h x =
    let (y, found, later) = h x.id x.payment x.found in
    record {
      id = x.id;
      payment = y;
      found = found;
      reference_id = x.reference_id ∙ sym later.reference_id;
      amount = x.amount ∙ sym later.amount;
      currency = x.currency ∙ sym later.currency;
      is_failure = x.is_failure;
      event = x.event;
      status = x.status;
    }

All-Advances :
    (p q : Provider) (sent : List Payload)
    → Advances p q
    → All (IsOfPayment p) sent
    → All (IsOfPayment q) sent
All-Advances p q [] h a = tt
All-Advances p q (x ∷ xs) h a = (IsOfPayment-Advances p q x h a.0, All-Advances p q xs h a.1)

new_payload-IsOfPayment :
    (id : String) (x : Payment) (is_failure : Bool) (post : Post) (p : Provider)
    → find id p ≡ some x
    → IsOfPayment p (new_payload x (event_name is_failure) (event_status is_failure) post)
unfolding new_payload
new_payload-IsOfPayment id x is_failure post p found = record {
  id = id;
  payment = x;
  found = found;
  reference_id = refl;
  amount = refl;
  currency = refl;
  is_failure = is_failure;
  event = refl;
  status = refl;
}

-- What a step has posted more is about payments that were there.
abbrev PostsMore : Provider → Provider → Type 0
PostsMore p q = (more : List Payload) × (q.posted ≡ more ++ p.posted) × All (IsOfPayment p) more

nothing_more : (p q : Provider) → q.posted ≡ p.posted → PostsMore p q
nothing_more p q same = ([], same, tt)

create_payment_posted :
    (hex : String) (r a c : Option String) (p : Provider)
    → (create_payment hex r a c p).1.posted ≡ p.posted
unfolding create_payment
create_payment_posted hex r a c p = ground arith

callback_end_posted :
    (id : String) (is_failure : Bool) (p : Provider)
    → (callback_end id (event_status is_failure) p).posted ≡ p.posted
unfolding callback_end
callback_end_posted id is_failure p = ground arith

configure_posted :
    (delay rate : Option (Option ℤ)) (p : Provider) → (configure delay rate p).1.posted ≡ p.posted
unfolding configure
configure_posted delay rate p = ground arith

callback_post-PostsMore :
    (id : String) (random : ℤ) (post : Post) (p : Provider)
    → PostsMore p (callback_post id random post p).1
unfolding callback_post
callback_post-PostsMore id random post p = elim (Option-cases (find id p)) [
  | inl missing ↦ rw (missing, callback_post) (nothing_more p p refl)
  | inr (x, found) ↦
      rw (found, callback_post)
        (
          _ ∷ [],
          refl,
          (new_payload-IsOfPayment id x (ltb_ℤ random p.failure_rate) post p found, tt),
        )
]

trigger-PostsMore :
    (id : String) (is_failure : Bool) (post : Post) (p : Provider)
    → PostsMore p (trigger id is_failure post p).1
unfolding trigger
trigger-PostsMore id is_failure post p = elim (Option-cases (find id p)) [
  | inl missing ↦ rw (missing, trigger) (nothing_more p p refl)
  | inr (x, found) ↦
      rw (found, trigger) (_ ∷ [], refl, (new_payload-IsOfPayment id x is_failure post p found, tt))
]

trigger_payment-PostsMore :
    (id : String) (outcome : Option String) (post : Post) (p : Provider)
    → PostsMore p (trigger_payment id outcome post p).1
unfolding trigger_payment
trigger_payment-PostsMore id outcome post p = elim (Option-cases (read_outcome outcome)) [
  | inl bad ↦ rw (bad, trigger_payment) (nothing_more p p refl)
  | inr (is_failure, good) ↦ rw (good, trigger_payment) (trigger-PostsMore id is_failure post p)
]

Step-PostsMore : {p q : Provider} → Step p q → PostsMore p q
Step-PostsMore (creates hex r a c p new) =
    nothing_more p (create_payment hex r a c p).1 (create_payment_posted hex r a c p)
Step-PostsMore (posts id random post p) = callback_post-PostsMore id random post p
Step-PostsMore (ends id is_failure p) =
    nothing_more p (callback_end id (event_status is_failure) p)
      (callback_end_posted id is_failure p)
Step-PostsMore (triggers id outcome post p) = trigger_payment-PostsMore id outcome post p
Step-PostsMore (configures delay rate p) =
    nothing_more p (configure delay rate p).1 (configure_posted delay rate p)

All-++ :
    (p : Provider) (xs ys : List Payload)
    → All (IsOfPayment p) xs
    → All (IsOfPayment p) ys
    → All (IsOfPayment p) (xs ++ ys)
All-++ p [] ys a b = b
All-++ p (x ∷ xs) ys a b = (a.0, All-++ p xs ys a.1 b)

-- The provider as it starts, with its settings from the environment.
abbrev pub started : ℤ → ℤ → Provider
started delay rate = record {
  payments = [];
  timers = [];
  posted = [];
  delay_seconds = delay;
  failure_rate = rate;
}

-- In every run of the provider from its start, in any order of requests and callbacks, each payload
-- that it has posted is about a payment that it has: the reference, the amount and the currency are
-- that payment's, and the status is the one of the event's type.
pub Run-IsOfPayment :
    (delay rate : ℤ) (q : Provider) → Run (started delay rate) q → All (IsOfPayment q) q.posted
Run-IsOfPayment delay rate q here = tt
Run-IsOfPayment delay rate q (next {q = p} run step) =
    let (more, e, new) = Step-PostsMore step in
    let all = All-++ p more p.posted new (Run-IsOfPayment delay rate p run) in
    simp e (All-Advances p q (more ++ p.posted) (Step-Advances step) all)
