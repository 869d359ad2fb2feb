-- ===== src/Api/Signature.antt =====
-- The signature and the time of a webhook, before its event is looked at.
use paysika.Prelude.{String, ℕ, ◌≡◌, true, false, none, some, arith, str_eq, inl, inr, Bool-cases}
use paysika.Prelude.Int.{ℤ}
use paysika.Errors.{ok}
use paysika.Store.{State, Body, error_body, ◌>>=◌}
use paysika.Api.{
  is_stale, WebhookRequest, verify_signature, refuse_signature, dispatch, accepted, payment_webhook,
}

pub refuse_unchanged :
    (hexdigest : String → String → String) (secret : String) (tolerance : ℕ) (r : WebhookRequest)
    (s : State)
    → (refuse_signature hexdigest secret tolerance r s).1 ≡ s
unfolding refuse_signature verify_signature ◌>>=◌
refuse_unchanged hexdigest secret tolerance r s = ground arith

-- With a secret configured, a request with an ASCII signature that is not the one of its payload is
-- answered 401 and changes nothing.
pub payment_webhook_forged :
    (hexdigest : String → String → String) (secret : String) (tolerance : ℕ) (r : WebhookRequest)
    (s : State)
    → str_eq secret "" ≡ false
    → r.ascii ≡ true
    → str_eq (hexdigest secret r.payload) r.signature ≡ false
    → (message : Body) × (payment_webhook hexdigest secret tolerance r s ≡ (ok (401, message), s))
unfolding payment_webhook refuse_signature verify_signature ◌>>=◌
payment_webhook_forged hexdigest secret tolerance r s set ascii differ =
    elim (Bool-cases (str_eq r.signature "")) [
      | inl missing ↦ (error_body "Missing X-Webhook-Signature header", ground arith)
      | inr present ↦ (error_body "Invalid webhook signature", ground arith)
    ]

-- With a secret configured, a request without a signature is answered 401 and changes nothing.
pub payment_webhook_missing :
    (hexdigest : String → String → String) (secret : String) (tolerance : ℕ) (r : WebhookRequest)
    (s : State)
    → str_eq secret "" ≡ false
    → str_eq r.signature "" ≡ true
    → payment_webhook hexdigest secret tolerance r s
      ≡ (ok (401, error_body "Missing X-Webhook-Signature header"), s)
unfolding payment_webhook refuse_signature verify_signature ◌>>=◌
payment_webhook_missing hexdigest secret tolerance r s set missing = ground arith

-- A webhook that is not refused, with a time within the tolerance and a reference that is read, does
-- what its event says.
pub payment_webhook_dispatched :
    (hexdigest : String → String → String) (secret : String) (tolerance : ℕ) (r : WebhookRequest)
    (s : State) (ts i : ℤ)
    → (refuse_signature hexdigest secret tolerance r s).0 ≡ ok none
    → r.timestamp ≡ some ts
    → is_stale hexdigest secret tolerance s.context.now ts ≡ false
    → r.reference ≡ some i
    → payment_webhook hexdigest secret tolerance r s ≡ dispatch hexdigest secret tolerance r i s
unfolding payment_webhook accepted ◌>>=◌
payment_webhook_dispatched hexdigest secret tolerance r s ts i free timed recent read =
    ground (arith, refuse_unchanged hexdigest secret tolerance r s)

-- With no secret nothing is refused.
pub unsigned_free :
    (hexdigest : String → String → String) (secret : String) (tolerance : ℕ) (r : WebhookRequest)
    (s : State)
    → str_eq secret "" ≡ true
    → (refuse_signature hexdigest secret tolerance r s).0 ≡ ok none
unfolding refuse_signature ◌>>=◌
unsigned_free hexdigest secret tolerance r s unset = ground arith
