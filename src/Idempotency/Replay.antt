-- ===== src/Idempotency/Replay.antt =====
-- What a repeated request answers, and what is left of a kept response when the request ends.
use text.Mathlib.TextPositions.{eq_refl}
use paysika.Prelude.{◌≡◌, String, some, none, true, false, arith, str_eq}
use paysika.Errors.{Result, ok}
use paysika.Store.{State, Action, IdempotencyRecord, error_body, ◌>>=◌}
use paysika.Idempotency.{
  Response, get_existing_response, save_response, answer_again, run_handler,
  require_idempotency_key, cache_response,
}
use paysika.Prelude.{lookup_text}

module _ (key hash : String) (handler : Action Response) (s : State) (set : str_eq key "" ≡ false)
    (r : IdempotencyRecord) (cached : lookup_text key s.idempotency_cache ≡ some r) where
  cached_same :
      str_eq r.request_hash hash ≡ true
      → require_idempotency_key (some key) hash handler s
        ≡ (ok (r.response_code, r.response_body), s)
  unfolding require_idempotency_key get_existing_response answer_again ◌>>=◌
  cached_same own = ground arith

  cached_other :
      str_eq r.request_hash hash ≡ false
      → require_idempotency_key (some key) hash handler s
        ≡ (ok (422, error_body "Idempotency-Key reused with different request body"), s)
  unfolding require_idempotency_key get_existing_response answer_again ◌>>=◌
  cached_other other = ground arith

module _ (key hash : String) (handler : Action Response) (s : State) (set : str_eq key "" ≡ false)
    (new : (get_existing_response key s).0 ≡ ok none) where
  abbrev first_answer : Result Response × State
  first_answer = require_idempotency_key (some key) hash handler s

  -- The record that is kept.
  abbrev kept : Response → IdempotencyRecord
  kept r = record {
    key = key;
    request_hash = hash;
    response_code = r.0;
    response_body = r.1;
    created_at = (handler s).1.context.now;
  }

  existing_unchanged : (get_existing_response key s).1 ≡ s
  unfolding get_existing_response ◌>>=◌
  existing_unchanged = ground arith

  handled : (r : Response) → first_answer.0 ≡ ok r → (handler s).0 ≡ ok r
  unfolding require_idempotency_key run_handler save_response ◌>>=◌
  handled r e = ground (arith, existing_unchanged)

  cached_after :
      (r : Response)
      → first_answer.0 ≡ ok r
      → lookup_text key first_answer.1.idempotency_cache ≡ some (kept r)
  unfolding require_idempotency_key run_handler save_response cache_response ◌>>=◌
  cached_after r e = ground (arith, existing_unchanged, handled r e, eq_refl key)

  -- A request under a set key that had no response, once answered, and repeated with a body of the
  -- same hash and any handler, answers the same, and nothing changes.
  pub require_idempotency_key_replayed :
      (r : Response) (handler' : Action Response)
      → first_answer.0 ≡ ok r
      → require_idempotency_key (some key) hash handler' first_answer.1 ≡ (ok r, first_answer.1)
  require_idempotency_key_replayed r handler' e =
      cached_same key hash handler' first_answer.1 set (kept r) (cached_after r e) (eq_refl hash)

  -- A request under a set key that had no response, once answered, and repeated with a body of
  -- another hash and any handler, answers 422, and nothing changes.
  pub require_idempotency_key_reused :
      (r : Response) (other : String) (handler' : Action Response)
      → first_answer.0 ≡ ok r
      → str_eq hash other ≡ false
      → require_idempotency_key (some key) other handler' first_answer.1 ≡ (
        ok (422, error_body "Idempotency-Key reused with different request body"),
        first_answer.1,
      )
  require_idempotency_key_reused r other handler' e differ =
      cached_other key other handler' first_answer.1 set (kept r) (cached_after r e) differ
