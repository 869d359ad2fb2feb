-- ===== src/Store/Keeps.antt =====
-- Predicates of the state that an action keeps, whether it returns or raises: one rule for each way
-- to build an action.
use paysika.Prelude.{refl, ◌≡◌, Bool, true, false, Option, none, some, inl, inr, if◌then◌else◌}
use paysika.Errors.{Error, Result, Result-cases}
use paysika.Store.{
  State, Action, pure, raise, lift, gets, or_raise, raise_if, when, match_option, ◌>>=◌,
}

pub record Keeps {A : Type 0} (P : State → Type 0) (m : Action A) : Type 0 where
  pub at : (s : State) → P s → P (m s).1

module _ {A : Type 0} {P : State → Type 0} where
  -- What leaves the state alone keeps every predicate.
  steady : (m : Action A) → ((s : State) → (m s).1 ≡ s) → Keeps P m
  steady m same = record { at = λ s h. rw (same s) h }

  pub Keeps-or_raise : (found : Option A) (e : Error) → Keeps P (or_raise found e)
  unfolding ◌>>=◌
  Keeps-or_raise none e = steady _ (λ s. refl)
  Keeps-or_raise (some a) e = steady _ (λ s. refl)

  pub Keeps-gets : (read : State → A) → Keeps P (gets read)
  unfolding ◌>>=◌
  Keeps-gets read = steady _ (λ s. refl)

  pub Keeps-lift : (answer : Result A) → Keeps P (lift answer)
  unfolding ◌>>=◌
  Keeps-lift answer = steady _ (λ s. refl)

  pub Keeps-pure : (value : A) → Keeps P (pure value)
  unfolding ◌>>=◌
  Keeps-pure value = steady _ (λ s. refl)

  pub Keeps-raise : (error : Error) → Keeps P (raise {A = A} error)
  unfolding ◌>>=◌
  Keeps-raise error = steady _ (λ s. refl)

module _ {A : Type 0} {P : State → Type 0} where
  pub Keeps-if :
      (test : Bool) (m n : Action A) → Keeps P m → Keeps P n → Keeps P (if test then m else n)
  Keeps-if false m n k l = l
  Keeps-if true m n k l = k

module _ {P : State → Type 0} where
  pub Keeps-raise_if : (bad : Bool) (error : Error) → Keeps P (raise_if bad error)
  unfolding ◌>>=◌
  Keeps-raise_if false error = steady _ (λ s. refl)
  Keeps-raise_if true error = steady _ (λ s. refl)

  pub Keeps-when : (test : Bool) (body : Action Unit) → Keeps P body → Keeps P (when test body)
  unfolding ◌>>=◌
  Keeps-when false body k = steady _ (λ s. refl)
  Keeps-when true body k = record { at = k.at }

module _ {A B : Type 0} {P : State → Type 0} where
  pub Keeps-match_option :
      (found : Option A) (on_some : A → Action B) (on_none : Action B)
      → ((a : A) → Keeps P (on_some a))
      → Keeps P on_none
      → Keeps P (match_option found on_some on_none)
  unfolding ◌>>=◌
  Keeps-match_option (some a) on_some on_none k l = record { at = (k a).at }
  Keeps-match_option none on_some on_none k l = record { at = l.at }

  pub Keeps-bind :
      (first : Action A) (rest : A → Action B)
      → Keeps P first
      → ((a : A) → Keeps P (rest a))
      → Keeps P (first >>= rest)
  unfolding ◌>>=◌
  Keeps-bind first rest k l = record {
    at = λ s h. elim (Result-cases (first s).0) [
      | inr (e, failed) ↦ rw failed (k.at s h)
      | inl (a, returned) ↦ rw returned ((l a).at (first s).1 (k.at s h))
    ];
  }

-- For `search`, the rules from the composite actions to the plain ones.
pub ruleset keeps_rules = (
  Keeps-bind, Keeps-match_option, Keeps-if, Keeps-when, Keeps-raise_if, Keeps-or_raise, Keeps-gets,
  Keeps-lift, Keeps-raise, Keeps-pure,
)

-- The tables, committed or not, the configuration and the handlers are those of a given state.
pub record Untouched (o s : State) : Type 0 where
  pub db : s.db ≡ o.db
  pub committed : s.committed ≡ o.committed
  pub context : s.context ≡ o.context
  pub handlers : s.handlers ≡ o.handlers

pub untouched : (s : State) → Untouched s s
untouched s = record { db = refl; committed = refl; context = refl; handlers = refl }

-- The same of the tables and of the cached balances.
pub record IsQuiet (o s : State) : Type 0 where
  pub db : s.db ≡ o.db
  pub cache : s.balance_cache ≡ o.balance_cache

pub quiet : (s : State) → IsQuiet s s
quiet s = record { db = refl; cache = refl }
