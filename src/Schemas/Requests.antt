-- ===== src/Schemas/Requests.antt =====
-- Which transfer requests reach their handler.
use paysika.Prelude.{
  ◌≤◌, ◌∙◌, sym, String, ◌≡◌, ◌⊎◌, inl, inr, refl, Option, some, none, true, arith, length, ap,
}
use paysika.Prelude.Int.{ℤ}
use paysika.Errors.{Error, err, validation}
use paysika.Idempotency.{Response}
use paysika.Schemas.{
  run_valid, validate_request, map_valid, transfer_schema, amount_field, Validated, valid, invalid,
  raised, both, Decimal, TransferInput, ValidTransfer, currency_field, int_field, default_field,
  text_field, codes, all_upper,
}
use paysika.Schemas.Amounts.{
  IsPayable, Checked, passes, unread, not_positive, below_all, unordered, validate_amount-Checked,
}
use paysika.Store.{State, Action, ◌>>=◌}

Validated-cases :
    {A : Type 0} (x : Validated A)
    → ((a : A) × (x ≡ valid a)) ⊎ ((x ≡ invalid) ⊎ ((e : Error) × (x ≡ raised e)))
Validated-cases (valid a) = inl (a, refl)
Validated-cases invalid = inr (inl refl)
Validated-cases (raised e) = inr (inr (e, refl))

-- Under a check a body that it accepts is handed on, and any other raises and changes nothing.
module _ {J A : Type 0} (schema : J → Validated A) (handler : A → Action Response) (s : State) where
  pub validate_request_accepted :
      (i : J) (v : A)
      → schema i ≡ valid v
      → validate_request schema handler (some i) s ≡ handler v s
  unfolding validate_request run_valid
  validate_request_accepted i v e = rw (e, run_valid) refl

  pub validate_request_either :
      (body : Option J)
      → ((v : A) × (validate_request schema handler body s ≡ handler v s))
        ⊎ ((e : Error) × (validate_request schema handler body s ≡ (err e, s)))
  unfolding validate_request run_valid ◌>>=◌
  validate_request_either none = inr (validation, refl)
  validate_request_either (some i) = elim (Validated-cases (schema i)) [
    | inl (v, e) ↦ inl (v, rw (e, run_valid) refl)
    | inr (inl e) ↦ inr (validation, rw (e, run_valid) refl)
    | inr (inr (r, e)) ↦ inr (r, rw (e, run_valid) refl)
  ]

both-valid :
    {A B : Type 0} (x : Validated A) (y : Validated B) (p : A × B)
    → both x y ≡ valid p
    → (x ≡ valid p.0) × (y ≡ valid p.1)
both-valid (valid a) (valid b) p e = (ground arith, ground arith)
both-valid (valid a) invalid p e = cc
both-valid (valid a) (raised r) p e = cc
both-valid invalid (valid b) p e = cc
both-valid invalid invalid p e = cc
both-valid invalid (raised r) p e = cc
both-valid (raised r) y p e = cc

-- What a request is whose body has been validated: the fields are there, the amount is positive or
-- infinity, the currency has three capitals, and the description at most 500 characters.
pub record IsGuarded (decimal : String → Option Decimal) (i : TransferInput) (v : ValidTransfer)
    : Type 0 where
  pub source : i.source ≡ some v.source
  pub target : i.target ≡ some v.target
  pub amount : i.amount ≡ some v.amount
  pub value : Decimal
  pub reads : decimal v.amount ≡ some value
  pub payable : IsPayable value
  pub currency : i.currency ≡ some v.currency
  pub three : length (codes v.currency) ≡ 3
  pub capitals : all_upper (codes v.currency) ≡ true
  pub short : length (codes v.description) ≤ 500

int_valid : (i : Option ℤ) (n : ℤ) → int_field i ≡ valid n → i ≡ some n
unfolding int_field
int_valid i n e = ground arith

currency_valid :
    (i : Option String) (c : String)
    → currency_field i ≡ valid c
    → (i ≡ some c) × (length (codes c) ≡ 3) × (all_upper (codes c) ≡ true)
unfolding currency_field
currency_valid i c e = ground arith

default_valid :
    (i : Option (Option String)) (c : String)
    → default_field 500 i ≡ valid c
    → length (codes c) ≤ 500
unfolding default_field text_field
default_valid none c e = let same : c ≡ "" = cc in rw same (ground arith)
default_valid (some none) c e = cc
default_valid (some (some text)) c e = ground arith

passed_text :
    (given text : String) {o : Option Decimal} {r : Validated String}
    → Checked given o r
    → r ≡ valid text
    → (given ≡ text) × (d : Decimal) × (o ≡ some d) × IsPayable d
passed_text given text (passes {d} payable) e = (cc, d, refl, payable)
passed_text given text unread e = cc
passed_text given text (not_positive low) e = cc
passed_text given text below_all e = cc
passed_text given text unordered e = cc

amount_valid :
    (decimal : String → Option Decimal) (i : Option String) (text : String)
    → amount_field decimal i ≡ valid text
    → (i ≡ some text) × (d : Decimal) × (decimal text ≡ some d) × IsPayable d
unfolding amount_field
amount_valid decimal none text e = cc
amount_valid decimal (some given) text e =
    let (same, d, reads, payable) =
      passed_text given text (validate_amount-Checked decimal given) e in
    (ap some same, d, ap decimal (sym same) ∙ reads, payable)

map_valid-valid :
    {A B : Type 0} (f : A → B) (x : Validated A) (b : B)
    → map_valid f x ≡ valid b
    → (a : A) × (x ≡ valid a) × (f a ≡ b)
map_valid-valid f (valid a) b e = (a, refl, cc)
map_valid-valid f invalid b e = cc
map_valid-valid f (raised r) b e = cc

transfer_schema-valid :
    (decimal : String → Option Decimal) (i : TransferInput) (v : ValidTransfer)
    → transfer_schema decimal i ≡ valid v
    → IsGuarded decimal i v
unfolding transfer_schema
transfer_schema-valid decimal i v e =
    let (p, whole, same) = map_valid-valid _ _ v e in
    let (source, rest) = both-valid _ _ p whole in
    let (target, rest) = both-valid _ _ p.1 rest in
    let (amount, rest) = both-valid _ _ p.1.1 rest in
    let (currency, description) = both-valid _ _ p.1.1.1 rest in
    let (given, d, reads, payable) = amount_valid decimal i.amount p.1.1.0 amount in
    let (code, three, capitals) = currency_valid i.currency p.1.1.1.0 currency in
    rw (sym same) (record {
      source = int_valid i.source p.0 source;
      target = int_valid i.target p.1.0 target;
      amount = given;
      value = d;
      reads = reads;
      payable = payable;
      currency = code;
      three = three;
      capitals = capitals;
      short = default_valid i.description p.1.1.1.1 description;
    })

-- A transfer request under the schema's check either runs its handler on the validated body, whose
-- fields were all there but the description, whose amount reads as a positive decimal or infinity, whose
-- currency is three capitals and whose description has at most 500 characters; or it raises and changes
-- nothing.
pub validate_request-transfers :
    (decimal : String → Option Decimal) (handler : ValidTransfer → Action Response)
    (body : Option TransferInput) (s : State)
    → ((i : TransferInput) × (v : ValidTransfer) × (body ≡ some i)
        × IsGuarded decimal i v
        × (validate_request (transfer_schema decimal) handler body s ≡ handler v s))
      ⊎ ((e : Error) × (validate_request (transfer_schema decimal) handler body s ≡ (err e, s)))
unfolding validate_request run_valid ◌>>=◌
validate_request-transfers decimal handler none s = inr (validation, refl)
validate_request-transfers decimal handler (some i) s =
    elim (Validated-cases (transfer_schema decimal i)) [
      | inl (v, e) ↦ inl (i, v, refl, transfer_schema-valid decimal i v e, rw (e, run_valid) refl)
      | inr (inl e) ↦ inr (validation, rw (e, run_valid) refl)
      | inr (inr (r, e)) ↦ inr (r, rw (e, run_valid) refl)
    ]
