-- ===== src/Store/Actions.antt =====
-- Actions on the state: a call ends in a value or an exception, and what it wrote before stays
-- written until the session is rolled back.
use paysika.Prelude.{
  ℕ, ◌+◌, ltb, Bool, true, false, Option, none, some, List, [], ◌∷◌, ◌++◌, String, str_eq,
  if◌then◌else◌, not, erase,
}
use paysika.Errors.{Error, Result, ok, err, queue_error}
use paysika.Store.World.{State, Db, Job, Lock, CachedBalance}

abbrev pub Action : Type 0 → Type 0
Action A = State → Result A × State

module _ {A : Type 0} where
  pub pure : A → Action A
  pure a s = (ok a, s)

  pub raise : Error → Action A
  raise e s = (err e, s)

  pub lift : Result A → Action A
  lift r s = (r, s)

  pub gets : (State → A) → Action A
  gets f s = (ok (f s), s)

  pub or_raise : Option A → Error → Action A
  or_raise none e s = (err e, s)
  or_raise (some a) e s = (ok a, s)

pub raise_if : Bool → Error → Action Unit
raise_if true e s = (err e, s)
raise_if false e s = (ok tt, s)

pub when : Bool → Action Unit → Action Unit
when true m s = m s
when false m s = (ok tt, s)

pub modify : (State → State) → Action Unit
modify f s = (ok tt, f s)

pub modify_db : (Db → Db) → Action Unit
modify_db f s = (ok tt, record s { db = f s.db })

module _ {A B : Type 0} where
  -- `if found is not None: … else: …`.
  pub match_option : Option A → (A → Action B) → Action B → Action B
  match_option none f m s = m s
  match_option (some a) f m s = f a s

  pub continue : Result A → (A → Action B) → Action B
  continue (ok a) f s = f a s
  continue (err e) f s = (err e, s)

infixl 5 ◌>>=◌ ◌>>◌
-- Opening this opens the actions above too.
unfoldable pub ◌>>=◌ : {A B : Type 0} → Action A → (A → Action B) → Action B
unfolding pure raise lift gets or_raise raise_if when modify modify_db match_option continue
◌>>=◌ m f s = let (r, s') = m s in continue r f s'

abbrev pub ◌>>◌ : {A B : Type 0} → Action A → Action B → Action B
m >> k = m >>= λ _. k

-- One more than every id of the table, as a row id is given.
module _ {ℓ} {A : Type ℓ} where
  unfoldable pub next_id : (A → ℕ) → List A → ℕ
  next_id id [] = 1
  next_id id (x ∷ xs) = let rest = next_id id xs in if ltb (id x) rest then rest else id x + 1

-- `if text:` for an optional text.
abbrev pub is_set : Option String → Bool
is_set none = false
is_set (some text) = not (str_eq text "")

-- `queue.enqueue(job)`, which raises when the queue's server does not answer.
unfoldable pub enqueue : Job → Action Unit
enqueue job s =
    if s.context.queue_up
    then (ok tt, record s { jobs = s.jobs ++ job ∷ [] })
    else (err queue_error, s)

unfoldable pub take_lock : Lock → Action Unit
take_lock lock s =
    (ok tt, if s.context.for_update then record s { locks = s.locks ++ lock ∷ [] } else s)

-- Writes an entry of the balance cache.
unfoldable pub cache_balance : ℕ → CachedBalance → Action Unit
cache_balance account_id v s =
    (ok tt, record s { balance_cache = (account_id, v) ∷ erase account_id s.balance_cache })
