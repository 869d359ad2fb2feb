-- ===== src/Tests/Provider.antt =====
-- Runs of the provider, and its posts at the application.
use paysika.Prelude.{◌≡◌, some, refl, true, false, Option, String, All}
use paysika.Prelude.Int.{pos, ℤ, ◌-ℤ◌}
use paysika.Errors.{ok}
use paysika.Domain.Enums.{of_value}
use paysika.Store.{status_body}
use paysika.Deposits.Steps.{confirmed}
use paysika.Api.{is_stale}
use paysika.MockProvider.{
  Provider, Payment, Payload, Post, find, new_payload, create_payment, callback_post, callback_end,
  trigger_payment, event_status, pending, failed,
}
use paysika.MockProvider.Runs.{Run, here, next, creates, posts, ends, triggers}
use paysika.MockProvider.Final.{Run-final}
use paysika.MockProvider.Posts.{started, IsOfPayment, Run-IsOfPayment}
use paysika.MockProvider.Delivery.{
  deliver, deliver-production, delivery_of, report, delivery_of-confirms,
}
use paysika.Api.Receipt.{receive_webhook}
use paysika.Tests.Application.{environment, number, settings, started_up}
use paysika.Tests.Data.{start, start-IsReady, small, purse, clearing, second_deposit}
use paysika.Tests.Deposits.{opened}

abbrev initial : Provider
initial = started (pos 3) (pos 0)

abbrev with_one : Provider
with_one = (create_payment "a1" (some "2") (some "50") (some "USD") initial).1

abbrev a_post : Post
a_post = record { event_hex = "e1"; reference_hex = "p1"; now = pos 30; returns = true }

abbrev called_back : Provider
called_back = (callback_post "mck_a1" (pos 5) a_post with_one).1

abbrev failed_by_hand : Provider
failed_by_hand = (trigger_payment "mck_a1" (some "failed") a_post called_back).1

-- A payment is made and reported, and failed by hand before the callback has written its status.
abbrev at_the_end : Provider
at_the_end = callback_end "mck_a1" (event_status false) failed_by_hand

race : Run initial at_the_end
race =
    next
      (next
        (next (next here (creates "a1" (some "2") (some "50") (some "USD") initial refl))
          (posts "mck_a1" (pos 5) a_post with_one))
        (triggers "mck_a1" (some "failed") a_post called_back))
      (ends "mck_a1" false failed_by_hand)

Run-IsOfPayment_example : All (IsOfPayment at_the_end) at_the_end.posted
Run-IsOfPayment_example = Run-IsOfPayment (pos 3) (pos 0) at_the_end race

abbrev the_payment : Payment
the_payment = record {
  payment_id = "mck_a1";
  reference_id = "2";
  amount = "50";
  currency = "USD";
  status = pending;
}

-- After the trigger, the rest of the callback.
abbrev after_trigger : Run failed_by_hand at_the_end
after_trigger = next here (ends "mck_a1" false failed_by_hand)

payment_failed : find "mck_a1" failed_by_hand ≡ some (record the_payment { status = failed })
unfolding create_payment callback_post trigger_payment
payment_failed = refl

Run-final_example : find "mck_a1" at_the_end ≡ some (record the_payment { status = failed })
Run-final_example =
    Run-final "mck_a1" (record the_payment { status = failed }) refl after_trigger (tt, tt)
      payment_failed

abbrev json : Payload → String
json sent = "{}"

abbrev iso : ℤ → String
iso t = "2026-01-01T00:00:00+00:00"

-- The reference of the deposit that is pending, and the time of the post.
abbrev int : String → Option ℤ
int text = some (pos 2)

abbrev time : String → Option ℤ
time text = some (pos 30)

deliver-production_example :
    deliver json iso time int (λ k p. "digest") "three" 300 at_the_end.posted start ≡ start
deliver-production_example =
    deliver-production json iso time int (λ k p. "digest") environment number settings 300
      at_the_end.posted start started_up refl

delivery_of-confirms_example :
    let (answer, s') =
      receive_webhook time int
        (λ k p. "digest")
        ""
        300
        (delivery_of json iso
          (report json iso time int (λ k p. "digest") "" 300 the_payment a_post start))
        start in
    (answer ≡ ok (200, status_body "received"))
    × (s'.committed ≡ confirmed "prov_p1" second_deposit purse clearing small)
unfolding of_value new_payload is_stale ◌-ℤ◌ delivery_of
delivery_of-confirms_example =
    delivery_of-confirms json iso time int (λ k p. "digest") "" 300 the_payment a_post start 2
      second_deposit purse opened refl refl refl refl refl refl start-IsReady refl refl refl refl
      refl
