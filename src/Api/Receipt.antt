-- ===== src/Api/Receipt.antt =====
-- The webhook of app/api/v1/webhooks.py with its decorator: the schema's check of the body, and the
-- handler behind it.
use paysika.Prelude.{ℕ, String, Bool, Option, some, ◌≡◌, ◌∙◌, ap, true, false, str_eq, inl, inr}
use paysika.Prelude.Int.{ℤ}
use paysika.Store.{Action, State}
use paysika.Idempotency.{Response}
use paysika.Schemas.{validate_request, valid}
use paysika.Schemas.Requests.{validate_request_accepted, validate_request_either}
use paysika.Api.Signature.{payment_webhook_missing}
use paysika.Schemas.Webhook.{WebhookInput, ValidWebhook, webhook_schema}
use paysika.Api.{WebhookRequest, payment_webhook}

-- A request as it comes: its bytes, its signature, and its body, none where it is no JSON.
pub record Delivery : Type 0 where
  pub payload : String
  pub signature : String
  pub ascii : Bool
  pub body : Option WebhookInput

-- `time` and `int` are what `datetime.fromisoformat` and `int` answer, none where they raise.
module _ (time int : String → Option ℤ) where
  unfoldable pub read_webhook : Delivery → ValidWebhook → WebhookRequest
  read_webhook d v = record {
    payload = d.payload;
    signature = d.signature;
    ascii = d.ascii;
    event_type = v.event_type;
    provider_reference = v.provider_reference;
    reason = v.reason;
    timestamp = time v.timestamp;
    reference = int v.reference_id;
  }

  module _ (hexdigest : String → String → String) (secret : String) (tolerance : ℕ) where
    pub receive_webhook : Delivery → Action Response
    unfolding read_webhook
    receive_webhook d =
        validate_request webhook_schema
          (λ v. payment_webhook hexdigest secret tolerance (read_webhook d v)) d.body

    module _ (d : Delivery) (s : State) where
      -- Where the schema accepts the body, the handler answers.
      pub receive_webhook_accepted :
          (i : WebhookInput) (v : ValidWebhook)
          → d.body ≡ some i
          → webhook_schema i ≡ valid v
          → receive_webhook d s ≡ payment_webhook hexdigest secret tolerance (read_webhook d v) s
      unfolding receive_webhook
      receive_webhook_accepted i v given accepted = rw given (
          validate_request_accepted webhook_schema
            (λ w. payment_webhook hexdigest secret tolerance (read_webhook d w)) s i v accepted)

      -- With a secret, a request without a signature changes nothing, whatever its body is.
      pub receive_webhook_unsigned :
          str_eq secret "" ≡ false → str_eq d.signature "" ≡ true → (receive_webhook d s).1 ≡ s
      unfolding receive_webhook read_webhook
      receive_webhook_unsigned set missing =
          elim (validate_request_either webhook_schema
            (λ w. payment_webhook hexdigest secret tolerance (read_webhook d w)) s d.body) [
              | inr (e, x) ↦ ap (λ r. r.1) x
              | inl (v, x) ↦
                  ap (λ r. r.1) x
                  ∙ ap (λ r. r.1)
                      (payment_webhook_missing hexdigest secret tolerance (read_webhook d v) s set
                        missing)
            ]
