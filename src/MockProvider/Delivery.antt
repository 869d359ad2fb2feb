-- ===== src/MockProvider/Delivery.antt =====
-- The provider's posts as the webhooks of the application.
use paysika.Prelude.{
  ◌∙◌, ap, ℕ, String, List, [], ◌∷◌, ◌≡◌, some, true, false, Option, length, str_eq, refl, sym,
}
use paysika.Prelude.Int.{ℤ, pos}
use paysika.Errors.{ok}
use paysika.Domain.Enums.{of_value, is_pending, Currency}
use paysika.Store.{Db, status_body, Account, Transaction, State}
use paysika.Accounts.{find_account}
use paysika.Deposits.{complete, meta_account, is_incomplete, find_transaction, meta_currency}
use paysika.Deposits.Steps.{confirmed}
use paysika.Deposits.Success.{confirm_deposit-succeeds, IsOpened}
use paysika.Transfers.Success.{IsReady}
use paysika.Schemas.{codes, all_upper}
use paysika.Schemas.Webhook.{ValidWebhook, webhook_schema_accepts}
use paysika.Api.{is_stale, end_request}
use paysika.Api.Receipt.{
  Delivery, read_webhook, receive_webhook, receive_webhook_accepted, receive_webhook_unsigned,
}
use paysika.Api.Events.{IsAccepted, payment_webhook_completed}
use paysika.Api.Signature.{unsigned_free}
use paysika.App.Settings.{Settings, production, production_webhook_secret}
use paysika.MockProvider.{
  PaymentStatus, pending, completed, failed, new_payload, Post, Payment, Payload,
}

abbrev pub status_text : PaymentStatus → String
status_text pending = "pending"
status_text completed = "completed"
status_text failed = "failed"

-- `json` is the text that `requests.post` sends, and `iso` that of a time. There is no header for a
-- signature, and the metadata is the empty dictionary.
module _ (json : Payload → String) (iso : ℤ → String) where
  unfoldable pub delivery_of : Payload → Delivery
  delivery_of sent = record {
    payload = json sent;
    signature = "";
    ascii = true;
    body = some (record {
      event_id = some sent.event_id;
      event_type = some sent.event_type;
      reference_id = some sent.reference_id;
      provider_reference = some sent.provider_reference;
      amount = some sent.amount;
      currency = some sent.currency;
      status = some (status_text sent.status);
      timestamp = some (iso sent.timestamp);
      metadata = some (some "");
    });
  }

  -- `time` and `int` are what the application reads of a time and of a reference.
  module _ (time int : String → Option ℤ) (hexdigest : String → String → String) where
    -- The posts at the application, one request each; the list has the newest first.
    pub deliver : String → ℕ → List Payload → State → State
    deliver secret tolerance [] s = s
    deliver secret tolerance (sent ∷ earlier) s =
        let s' = deliver secret tolerance earlier s in
        end_request (receive_webhook time int hexdigest secret tolerance (delivery_of sent) s').1

    -- Under a configuration that passes the checks of the production one, whatever posts the provider
    -- makes, of whatever currency, time and reference, leave a session without changes of its own, and
    -- with it the application's tables, as they were: no deposit is confirmed or failed.
    pub deliver-production :
        (getenv : String → Option String) (read : String → Option ℤ) (c : Settings) (tolerance : ℕ)
        (posts : List Payload) (s : State)
        → production getenv read ≡ ok c
        → s.db ≡ s.committed
        → deliver c.webhook_secret tolerance posts s ≡ s
    unfolding deliver delivery_of
    deliver-production getenv read c tolerance [] s started clean = refl
    deliver-production getenv read c tolerance (sent ∷ earlier) s started clean =
        let rest = deliver-production getenv read c tolerance earlier s started clean in
        let ignored =
          receive_webhook_unsigned time int hexdigest c.webhook_secret tolerance (delivery_of sent)
            s (production_webhook_secret getenv read c started) refl in
        let ended : end_request s ≡ s = ap (λ (d : Db). record s { db = d }) (sym clean) in
        ap
          (λ (x : State).
            end_request
              (receive_webhook time int hexdigest c.webhook_secret tolerance (delivery_of sent)
                x).1)
          rest
        ∙ ap (λ (x : State). end_request x) ignored
        ∙ ended

    module _ (secret : String) (tolerance : ℕ) (x : Payment) (post : Post) (s : State) where
      abbrev pub report : Payload
      report = new_payload x "deposit.completed" completed post

      abbrev form : ValidWebhook
      form = record {
        event_type = report.event_type;
        reference_id = report.reference_id;
        provider_reference = report.provider_reference;
        timestamp = iso report.timestamp;
        reason = "";
      }

      -- With no secret configured, the post about a completed payment in a currency of three capitals,
      -- whose time is read back and within the tolerance, and whose reference reads as the id of a
      -- pending deposit with complete metadata, whose account and clearing account exist in a supported
      -- currency, with the queue up and the handlers registered, is answered 200, and the deposit is
      -- committed with its entries and the payload's provider reference.
      pub delivery_of-confirms :
          (i : ℕ) (t : Transaction) (a : Account) {c : Currency}
          (opened : IsOpened (meta_currency t) s)
          → length (codes x.currency) ≡ 3
          → all_upper (codes x.currency) ≡ true
          → str_eq secret "" ≡ true
          → time (iso post.now) ≡ some post.now
          → is_stale hexdigest secret tolerance s.context.now post.now ≡ false
          → int x.reference_id ≡ some (pos i)
          → IsReady s
          → find_transaction i s.db ≡ some t
          → is_pending t.status ≡ true
          → is_incomplete t ≡ false
          → find_account (meta_account t) s.db ≡ some a
          → of_value (meta_currency t) ≡ some c
          → let (answer, s') =
              receive_webhook time int hexdigest secret tolerance (delivery_of report) s in
            (answer ≡ ok (200, status_body "received"))
            × (s'.committed ≡ confirmed report.provider_reference t a opened.account s.db)
      unfolding delivery_of new_payload read_webhook
      delivery_of-confirms i t a opened three capitals unset timed recent reference ready found
            undecided whole known supported =
          let r = read_webhook time int (delivery_of report) form in
          let ref = report.provider_reference in
          let accepted : IsAccepted hexdigest secret tolerance r i s = record {
            signed = unsigned_free hexdigest secret tolerance r s unset;
            time = post.now;
            timed = timed;
            recent = recent;
            reference = reference;
          } in
          let done =
            confirm_deposit-succeeds i ref s ready t found undecided whole a known opened
              supported in
          let e =
            receive_webhook_accepted time int hexdigest secret tolerance (delivery_of report) s _
              form refl
              (webhook_schema_accepts report.event_id report.event_type report.reference_id
                report.provider_reference report.amount report.currency "completed"
                (iso report.timestamp) "" three capitals)
            ∙ payment_webhook_completed hexdigest secret tolerance r i s accepted (complete ref t)
                refl done.0 in
          (ap (λ y. y.0) e, ap (λ y. y.1.committed) e ∙ done.1)
