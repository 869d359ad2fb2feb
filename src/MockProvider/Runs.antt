-- ===== src/MockProvider/Runs.antt =====
-- Runs of the provider: its requests and the two halves of its callbacks, in any order.
use text.Mathlib.TextEquality.{eq_iff}
use Prim.Native.String.{◌++◌}
use paysika.Prelude.{
  String, Bool, true, false, Option, none, some, List, [], ◌∷◌, ◌≡◌, inl, inr, refl, ◌∙◌, arith,
  str_eq, lookup_text, Bool-cases, Option-cases,
}
use paysika.Prelude.Int.{ℤ}
use paysika.MockProvider.{
  read_outcome, Provider, Payment, Post, find, is_waiting, set_status, event_status, callback_post,
  callback_end, create_payment, trigger_payment, trigger, configure,
}

-- One request, or one half of a callback. A new payment's id is not in use.
pub data Step : Provider → Provider → Type 0 where
  creates :
      (hex : String) (r a c : Option String) (p : Provider)
      → find ("mck_" ++ hex) p ≡ none
      → Step p (create_payment hex r a c p).1
  posts :
      (id : String) (random : ℤ) (post : Post) (p : Provider)
      → Step p (callback_post id random post p).1
  ends :
      (id : String) (is_failure : Bool) (p : Provider)
      → Step p (callback_end id (event_status is_failure) p)
  triggers :
      (id : String) (outcome : Option String) (post : Post) (p : Provider)
      → Step p (trigger_payment id outcome post p).1
  configures : (delay rate : Option (Option ℤ)) (p : Provider) → Step p (configure delay rate p).1

pub data Run : Provider → Provider → Type 0 where
  here : {p : Provider} → Run p p
  next : {p q r : Provider} → Run p q → Step q r → Run p r

-- A payment later on: its status may have changed, but not back to pending.
pub record IsLater (x y : Payment) : Type 0 where
  pub payment_id : y.payment_id ≡ x.payment_id
  pub reference_id : y.reference_id ≡ x.reference_id
  pub amount : y.amount ≡ x.amount
  pub currency : y.currency ≡ x.currency
  pub settled : is_waiting (some x) ≡ false → is_waiting (some y) ≡ false

IsLater-refl : (x : Payment) → IsLater x x
IsLater-refl x = record {
  payment_id = refl;
  reference_id = refl;
  amount = refl;
  currency = refl;
  settled = λ h. h;
}

IsLater-trans : {x y z : Payment} → IsLater x y → IsLater y z → IsLater x z
IsLater-trans h k = record {
  payment_id = k.payment_id ∙ h.payment_id;
  reference_id = k.reference_id ∙ h.reference_id;
  amount = k.amount ∙ h.amount;
  currency = k.currency ∙ h.currency;
  settled = λ e. k.settled (h.settled e);
}

-- Every payment is still there, later on.
abbrev pub Advances : Provider → Provider → Type 0
Advances p q =
    (id : String) (x : Payment)
    → find id p ≡ some x
    → (y : Payment) × (find id q ≡ some y) × IsLater x y

settled-IsLater :
    (is_failure : Bool) (x : Payment) → IsLater x (record x { status = event_status is_failure })
settled-IsLater true x = record {
  payment_id = refl;
  reference_id = refl;
  amount = refl;
  currency = refl;
  settled = λ h. refl;
}
settled-IsLater false x = record {
  payment_id = refl;
  reference_id = refl;
  amount = refl;
  currency = refl;
  settled = λ h. refl;
}

set_status-IsLater :
    (id k : String) (is_failure : Bool) (xs : List (String × Payment)) (x : Payment)
    → lookup_text k xs ≡ some x
    → (y : Payment) × (lookup_text k (set_status id (event_status is_failure) xs) ≡ some y)
      × IsLater x y
unfolding set_status
set_status-IsLater id k is_failure [] x e = cc
set_status-IsLater id k is_failure ((j, z) ∷ xs) x e = elim (Bool-cases (str_eq id j)) [
  | inl same ↦ elim (Bool-cases (str_eq k j)) [
    | inl found ↦
        (record x { status = event_status is_failure }, ground arith, settled-IsLater is_failure x)
    | inr past ↦ (x, ground arith, IsLater-refl x)
  ]
  | inr other ↦ elim (Bool-cases (str_eq k j)) [
    | inl found ↦ (x, ground arith, IsLater-refl x)
    | inr past ↦
        let (y, found, later) = set_status-IsLater id k is_failure xs x (ground arith) in
        (y, ground (arith, found), later)
  ]
]

updated-Advances :
    (id : String) (is_failure : Bool) (p : Provider)
    → Advances p (record p { payments = set_status id (event_status is_failure) p.payments })
updated-Advances id is_failure p k x e = set_status-IsLater id k is_failure p.payments x e

same-Advances : (p q : Provider) → q.payments ≡ p.payments → Advances p q
same-Advances p q same k x e = (x, rw same e, IsLater-refl x)

create_payment-Advances :
    (hex : String) (r a c : Option String) (p : Provider)
    → find ("mck_" ++ hex) p ≡ none
    → Advances p (create_payment hex r a c p).1
unfolding create_payment
create_payment-Advances hex r a c p new k x e =
    (x, ground (arith, eq_iff k ("mck_" ++ hex)), IsLater-refl x)

trigger-Advances :
    (id : String) (is_failure : Bool) (post : Post) (p : Provider)
    → Advances p (trigger id is_failure post p).1
unfolding trigger
trigger-Advances id is_failure post p = elim (Option-cases (find id p)) [
  | inl missing ↦ rw (missing, trigger) (same-Advances p p refl)
  | inr (x, found) ↦ rw (found, trigger) (updated-Advances id is_failure p)
]

trigger_payment-Advances :
    (id : String) (outcome : Option String) (post : Post) (p : Provider)
    → Advances p (trigger_payment id outcome post p).1
unfolding trigger_payment
trigger_payment-Advances id outcome post p = elim (Option-cases (read_outcome outcome)) [
  | inl bad ↦ rw (bad, trigger_payment) (same-Advances p p refl)
  | inr (is_failure, good) ↦ rw (good, trigger_payment) (trigger-Advances id is_failure post p)
]

callback_end-Advances :
    (id : String) (is_failure : Bool) (p : Provider)
    → Advances p (callback_end id (event_status is_failure) p)
unfolding callback_end
callback_end-Advances id is_failure p = elim (Bool-cases (is_waiting (find id p))) [
  | inl waiting ↦ rw waiting (updated-Advances id is_failure p)
  | inr settled ↦ rw settled (same-Advances p p refl)
]

pub callback_post_payments :
    (id : String) (random : ℤ) (post : Post) (p : Provider)
    → (callback_post id random post p).1.payments ≡ p.payments
unfolding callback_post
callback_post_payments id random post p = ground arith

pub configure_payments :
    (delay rate : Option (Option ℤ)) (p : Provider)
    → (configure delay rate p).1.payments ≡ p.payments
unfolding configure
configure_payments delay rate p = ground arith

pub Step-Advances : {p q : Provider} → Step p q → Advances p q
Step-Advances (creates hex r a c p new) = create_payment-Advances hex r a c p new
Step-Advances (posts id random post p) =
    same-Advances p (callback_post id random post p).1 (callback_post_payments id random post p)
Step-Advances (ends id is_failure p) = callback_end-Advances id is_failure p
Step-Advances (triggers id outcome post p) = trigger_payment-Advances id outcome post p
Step-Advances (configures delay rate p) =
    same-Advances p (configure delay rate p).1 (configure_payments delay rate p)

-- In every run of the provider's requests and callbacks, in any order, a payment keeps its id,
-- reference, amount and currency, and once it is completed or failed it is never pending again.
pub Run-Advances : {p q : Provider} → Run p q → Advances p q
Run-Advances here k x e = (x, e, IsLater-refl x)
Run-Advances (next run step) k x e =
    let (y, found, later) = Run-Advances run k x e in
    let (z, found', later') = Step-Advances step k y found in
    (z, found', IsLater-trans later later')
