-- ===== src/MockProvider/Final.antt =====
-- What becomes of a payment that has its final status.
use Prim.Native.String as Text
use text.Mathlib.TextEquality.{eq_iff}
use paysika.Prelude.{
  ◌∙◌, String, Bool, false, Option, none, some, List, [], ◌∷◌, ◌≡◌, inl, inr, refl, arith, str_eq,
  lookup_text, Bool-cases, Option-cases,
}
use paysika.MockProvider.{
  read_outcome, Provider, Payment, PaymentStatus, Post, find, is_waiting, set_status, event_status,
  callback_end, create_payment, trigger_payment, trigger,
}
use paysika.MockProvider.Runs.{
  Step, creates, posts, ends, triggers, configures, Run, here, next, callback_post_payments,
  configure_payments,
}

-- No request of the run triggers the payment.
abbrev LeavesStep : {p q : Provider} → String → Step p q → Type 0
LeavesStep id (creates hex r a c p new) = Unit
LeavesStep id (posts k random post p) = Unit
LeavesStep id (ends k is_failure p) = Unit
LeavesStep id (triggers k outcome post p) = str_eq id k ≡ false
LeavesStep id (configures delay rate p) = Unit

abbrev pub Leaves : {p q : Provider} → String → Run p q → Type 0
Leaves id here = Unit
Leaves id (next run step) = Leaves id run × LeavesStep id step

module _ (id : String) where
  set_status_other :
      (k : String) (status : PaymentStatus) (xs : List (String × Payment))
      → str_eq id k ≡ false
      → lookup_text id (set_status k status xs) ≡ lookup_text id xs
  unfolding set_status
  set_status_other k status [] other = refl
  set_status_other k status ((j, z) ∷ xs) other =
      ground (arith, set_status_other k status xs other, eq_iff k j, eq_iff id j, eq_iff id k)

  module _ (x : Payment) where
    create_payment_kept :
        (hex : String) (r a c : Option String) (p : Provider)
        → find (Text.◌++◌ "mck_" hex) p ≡ none
        → find id p ≡ some x
        → find id (create_payment hex r a c p).1 ≡ some x
    unfolding create_payment
    create_payment_kept hex r a c p new e = ground (arith, eq_iff id (Text.◌++◌ "mck_" hex))

    trigger_kept :
        (k : String) (is_failure : Bool) (post : Post) (p : Provider)
        → str_eq id k ≡ false
        → find id p ≡ some x
        → find id (trigger k is_failure post p).1 ≡ some x
    unfolding trigger
    trigger_kept k is_failure post p other e =
        let kept = set_status_other k (event_status is_failure) p.payments other in
        elim (Option-cases (find k p)) [
          | inl missing ↦ rw (missing, trigger) e
          | inr (y, found) ↦ rw (found, trigger) (kept ∙ e)
        ]

    trigger_payment_kept :
        (k : String) (outcome : Option String) (post : Post) (p : Provider)
        → str_eq id k ≡ false
        → find id p ≡ some x
        → find id (trigger_payment k outcome post p).1 ≡ some x
    unfolding trigger_payment trigger
    trigger_payment_kept k outcome post p other e = elim (Option-cases (read_outcome outcome)) [
      | inl bad ↦ rw (bad, trigger_payment) e
      | inr (is_failure, good) ↦
          rw (good, trigger_payment) (trigger_kept k is_failure post p other e)
    ]

    module _ (final : is_waiting (some x) ≡ false) where
      callback_end_kept :
          (k : String) (is_failure : Bool) (p : Provider)
          → find id p ≡ some x
          → find id (callback_end k (event_status is_failure) p) ≡ some x
      unfolding callback_end
      callback_end_kept k is_failure p e = elim (Bool-cases (str_eq id k)) [
        | inl same ↦ ground (arith, eq_iff id k)
        | inr other ↦ ground (arith, set_status_other k (event_status is_failure) p.payments other)
      ]

      Step-kept :
          {p q : Provider} (step : Step p q)
          → LeavesStep id step
          → find id p ≡ some x
          → find id q ≡ some x
      Step-kept (creates hex r a c p new) left e = create_payment_kept hex r a c p new e
      Step-kept (posts k random post p) left e = rw (callback_post_payments k random post p) e
      Step-kept (ends k is_failure p) left e = callback_end_kept k is_failure p e
      Step-kept (triggers k outcome post p) left e = trigger_payment_kept k outcome post p left e
      Step-kept (configures delay rate p) left e = rw (configure_payments delay rate p) e

      -- A payment that is completed or failed stays exactly as it is through every run, in any order, of
      -- requests and of the two halves of callbacks, its own included, in which no request triggers it.
      pub Run-final :
          {p q : Provider} (run : Run p q) → Leaves id run → find id p ≡ some x → find id q ≡ some x
      Run-final here left e = e
      Run-final (next run step) left e = Step-kept step left.1 (Run-final run left.0 e)
