-- ===== src/MockProvider.antt =====
-- mock-provider/app.py: the payment provider of development, with its payments and the webhooks that
-- it posts. What `uuid4`, `random`, the clock and the network answer are arguments.
pub mod Runs
pub mod Final
pub mod Posts
pub mod Delivery
use Prim.Native.String.{◌++◌}
use paysika.Prelude.{
  ◌&&◌, ℕ, String, Bool, true, false, Option, none, some, List, [], ◌∷◌, str_eq, or_else, not,
  lookup_text, if◌then◌else◌,
}
use paysika.Prelude.Int.{ℤ, ltb_ℤ}

pub data PaymentStatus : Type 0 where
  pending completed failed : PaymentStatus

pub record Payment : Type 0 where
  pub payment_id : String
  pub reference_id : String
  pub amount : String
  pub currency : String
  pub status : PaymentStatus

-- The JSON that is posted, less its empty metadata.
pub record Payload : Type 0 where
  pub event_id : String
  pub event_type : String
  pub reference_id : String
  pub provider_reference : String
  pub amount : String
  pub currency : String
  pub status : PaymentStatus
  pub timestamp : ℤ

-- The module's globals, the payments whose timers run, and the payloads that have been posted, the
-- newest first. The failure rate is in parts of 2 ^ 53, of which `random()` answers a number.
pub record Provider : Type 0 where
  pub payments : List (String × Payment)
  pub timers : List String
  pub posted : List Payload
  pub delay_seconds : ℤ
  pub failure_rate : ℤ

-- What one post finds: two `uuid4().hex[:16]`, the time, and whether `requests.post` returns.
pub record Post : Type 0 where
  pub event_hex : String
  pub reference_hex : String
  pub now : ℤ
  pub returns : Bool

-- The JSON bodies of the answers.
pub data ProviderBody : Type 0 where
  created : String → String → ProviderBody
  payment : Payment → ProviderBody
  payload : Payload → ProviderBody
  settings : ℤ → ℤ → ProviderBody
  healthy : ProviderBody
  error : String → ProviderBody

-- The status of the answer and its body.
abbrev pub ProviderAnswer : Type 0
ProviderAnswer = ℕ × ProviderBody

abbrev pub find : String → Provider → Option Payment
find payment_id p = lookup_text payment_id p.payments

-- `payment["status"] = status`, on the object that the dictionary has under the id.
pub set_status : String → PaymentStatus → List (String × Payment) → List (String × Payment)
set_status payment_id status [] = []
set_status payment_id status ((k, x) ∷ rest) =
    let others = set_status payment_id status rest in
    if str_eq payment_id k then (k, record x { status = status }) ∷ rest else (k, x) ∷ others

unfoldable pub new_payload : Payment → String → PaymentStatus → Post → Payload
new_payload x event_type status post = record {
  event_id = "evt_" ++ post.event_hex;
  event_type = event_type;
  reference_id = x.reference_id;
  provider_reference = "prov_" ++ post.reference_hex;
  amount = x.amount;
  currency = x.currency;
  status = status;
  timestamp = post.now;
}

abbrev pub posting : Payload → Provider → Provider
posting sent p = record p { posted = sent ∷ p.posted }

abbrev pub event_name : Bool → String
event_name is_failure = if is_failure then "deposit.failed" else "deposit.completed"

abbrev pub event_status : Bool → PaymentStatus
event_status is_failure = if is_failure then failed else completed

-- `_callback` up to the post, whose exception is logged and swallowed: the status that it goes on
-- with, none where it has returned.
unfoldable pub callback_post : String → ℤ → Post → Provider → Option PaymentStatus × Provider
unfolding new_payload
callback_post payment_id random post p = elim (find payment_id p) [
  | none ↦ (none, p)
  | some x ↦
      let is_failure = ltb_ℤ random p.failure_rate in
      (
        some (event_status is_failure),
        posting (new_payload x (event_name is_failure) (event_status is_failure) post) p,
      )
]

abbrev pub is_waiting : Option Payment → Bool
is_waiting none = false
is_waiting (some x) = elim x.status [ pending ↦ true | _ ↦ false ]

-- The rest of `_callback`. A trigger may have run in between.
pub callback_end : String → PaymentStatus → Provider → Provider
unfolding set_status
callback_end payment_id status p =
    if is_waiting (find payment_id p)
    then record p { payments = set_status payment_id status p.payments }
    else p

-- `data.get(key)` of a field that must be truthy.
abbrev pub is_truthy : Option String → Bool
is_truthy none = false
is_truthy (some text) = not (str_eq text "")

abbrev pub new_payment : String → Option String → Option String → Option String → Payment
new_payment payment_id reference_id amount currency = record {
  payment_id = payment_id;
  reference_id = or_else reference_id "";
  amount = or_else amount "";
  currency = or_else currency "";
  status = pending;
}

-- `uuid_hex` is `uuid4().hex[:12]`. The timer that starts is one more.
unfoldable pub create_payment :
    String → Option String → Option String → Option String → Provider → ProviderAnswer × Provider
create_payment uuid_hex reference_id amount currency p =
    if is_truthy reference_id && is_truthy amount && is_truthy currency
    then (let payment_id = "mck_" ++ uuid_hex in
        (
          (201, created payment_id (or_else reference_id "")),
          record p {
            payments =
                (payment_id, new_payment payment_id reference_id amount currency) ∷ p.payments;
            timers = payment_id ∷ p.timers;
          },
        ))
    else ((400, error "reference_id, amount, and currency are required"), p)

pub get_payment : String → Provider → ProviderAnswer
get_payment payment_id p = elim (find payment_id p) [
  | none ↦ (404, error "Payment not found")
  | some x ↦ (200, payment x)
]

-- `outcome`, where it is one of the two.
pub read_outcome : Option String → Option Bool
read_outcome outcome =
    let text = or_else outcome "completed" in
    if str_eq text "completed" then some false else if str_eq text "failed" then some true else none

-- The argument of `trigger` is whether the outcome is a failure.
trigger : String → Bool → Post → Provider → ProviderAnswer × Provider
unfolding new_payload set_status
trigger payment_id is_failure post p = elim (find payment_id p) [
  | none ↦ ((404, error "Payment not found"), p)
  | some x ↦
      let status = event_status is_failure in
      let sent = new_payload x (event_name is_failure) status post in
      let p' = record p { payments = set_status payment_id status p.payments } in
      (if post.returns then (200, payload sent) else (502, error "request failed"), posting sent p')
]

unfoldable pub trigger_payment :
    String → Option String → Post → Provider → ProviderAnswer × Provider
unfolding read_outcome trigger
trigger_payment payment_id outcome post p = elim (read_outcome outcome) [
  | none ↦ ((400, error "outcome must be 'completed' or 'failed'"), p)
  | some is_failure ↦ trigger payment_id is_failure post p
]

-- A field of the request is none where it is missing, and holds none where `int` or `float` raises,
-- which the framework answers with 500.
pub configure : Option (Option ℤ) → Option (Option ℤ) → Provider → ProviderAnswer × Provider
configure none none p = ((200, settings p.delay_seconds p.failure_rate), p)
configure none (some none) p = ((500, error "Internal Server Error"), p)
configure none (some (some rate)) p =
    ((200, settings p.delay_seconds rate), record p { failure_rate = rate })
configure (some none) rate p = ((500, error "Internal Server Error"), p)
configure (some (some delay)) none p =
    ((200, settings delay p.failure_rate), record p { delay_seconds = delay })
configure (some (some delay)) (some none) p =
    ((500, error "Internal Server Error"), record p { delay_seconds = delay })
configure (some (some delay)) (some (some rate)) p =
    ((200, settings delay rate), record p { delay_seconds = delay; failure_rate = rate })

pub health : ProviderAnswer
health = (200, healthy)
