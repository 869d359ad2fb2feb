-- ===== src/Schemas/Webhook.antt =====
-- app/schemas/webhook.py: the body of a payment provider's webhook.
use paysika.Prelude.{refl, true, ◌≡◌, length, String, Option, none, some}
use paysika.Schemas.{all_upper, codes, Validated, valid, invalid, both, map_valid, currency_field}

-- The fields as they come. `metadata` is none where it is missing, holds none where it is no dictionary,
-- and is otherwise what the dictionary has under `reason`, the empty text where it has nothing.
pub record WebhookInput : Type 0 where
  pub event_id : Option String
  pub event_type : Option String
  pub reference_id : Option String
  pub provider_reference : Option String
  pub amount : Option String
  pub currency : Option String
  pub status : Option String
  pub timestamp : Option String
  pub metadata : Option (Option String)

-- The fields that the handler reads of a validated body.
pub record ValidWebhook : Type 0 where
  pub event_type : String
  pub reference_id : String
  pub provider_reference : String
  pub timestamp : String
  pub reason : String

pub string_field : Option String → Validated String
string_field none = invalid
string_field (some text) = valid text

pub metadata_field : Option (Option String) → Validated String
metadata_field none = valid ""
metadata_field (some none) = invalid
metadata_field (some (some reason)) = valid reason

-- The fields that the handler does not read.
pub unread_fields : WebhookInput → Validated (String × (String × (String × String)))
unfolding string_field currency_field
unread_fields i =
    both (string_field i.event_id)
      (both (string_field i.amount) (both (currency_field i.currency) (string_field i.status)))

-- `PaymentWebhookPayload`.
pub webhook_schema : WebhookInput → Validated ValidWebhook
unfolding string_field metadata_field unread_fields
webhook_schema i =
    map_valid
      (λ v. record {
        event_type = v.1.0;
        reference_id = v.1.1.0;
        provider_reference = v.1.1.1.0;
        timestamp = v.1.1.1.1.0;
        reason = v.1.1.1.1.1;
      })
      (both (unread_fields i) (
        both (string_field i.event_type) (
          both (string_field i.reference_id) (
            both (string_field i.provider_reference)
              (both (string_field i.timestamp) (metadata_field i.metadata))))))

-- A body whose fields are all texts and whose currency is three capitals is accepted, with its fields
-- as they are.
pub webhook_schema_accepts :
    (event_id event_type reference_id provider_reference amount currency status timestamp
      reason : String)
    → length (codes currency) ≡ 3
    → all_upper (codes currency) ≡ true
    → webhook_schema (record {
      event_id = some event_id;
      event_type = some event_type;
      reference_id = some reference_id;
      provider_reference = some provider_reference;
      amount = some amount;
      currency = some currency;
      status = some status;
      timestamp = some timestamp;
      metadata = some (some reason);
    })
      ≡ valid (record {
        event_type = event_type;
        reference_id = reference_id;
        provider_reference = provider_reference;
        timestamp = timestamp;
        reason = reason;
      })
unfolding webhook_schema unread_fields string_field metadata_field currency_field
webhook_schema_accepts event_id event_type reference_id provider_reference amount currency status
      timestamp reason three capitals =
    rw (three, capitals) refl
