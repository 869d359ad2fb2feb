-- ===== src/Idempotency.antt =====
-- app/services/idempotency_service.py, and `require_idempotency_key` of app/utils/decorators.py.
pub mod Replay
pub mod Commits
use paysika.Prelude.{
  ℕ, String, Bool, Option, none, some, List, [], ◌∷◌, str_eq, not, first, lookup_text,
  if◌then◌else◌, or_else,
}
use paysika.Store.{
  Action, Body, Db, IdempotencyRecord, error_body, pure, gets, modify, modify_db, match_option,
  is_set, ◌>>=◌, ◌>>◌,
}

-- The status and the JSON body of a response.
abbrev pub Response : Type 0
Response = ℕ × Body

abbrev pub find_record : String → Db → Option IdempotencyRecord
find_record key d = first (λ r. str_eq r.key key) d.idempotency_records

-- `cache.set(_idempotency_cache_key(key), ...)`. The source leaves the time out, which is not read from there.
unfoldable pub cache_response : IdempotencyRecord → Action Unit
cache_response r = modify (λ s. record s { idempotency_cache = (r.key, r) ∷ s.idempotency_cache })

unfoldable pub get_existing_response : String → Action (Option IdempotencyRecord)
unfolding cache_response
get_existing_response key = do
  cached ← gets (λ s. lookup_text key s.idempotency_cache)
  found ← gets (λ s. find_record key s.db)
  match_option cached (λ r. pure (some r))
      (match_option found (λ r. cache_response r >> pure (some r)) (pure none))

-- `db.session.add(record)` without a commit, and the cache.
unfoldable pub save_response : String → String → ℕ → Body → Action IdempotencyRecord
unfolding cache_response
save_response key request_hash response_code response_body = do
  now ← gets (λ s. s.context.now)
  let r : IdempotencyRecord = record {
    key = key;
    request_hash = request_hash;
    response_code = response_code;
    response_body = response_body;
    created_at = now;
  }
  modify_db (λ d. record d { idempotency_records = r ∷ d.idempotency_records })
  cache_response r
  pure r

-- The answer to a request whose key has been used.
pub answer_again : String → IdempotencyRecord → Action Response
answer_again request_hash r =
    if not (str_eq r.request_hash request_hash)
    then pure (422, error_body "Idempotency-Key reused with different request body")
    else pure (r.response_code, r.response_body)

-- The handler runs, and its response is kept.
unfoldable pub run_handler : String → String → Action Response → Action Response
run_handler key request_hash handler = do
  response ← handler
  save_response key request_hash response.0 response.1
  pure response

-- The wrapper of the decorator, for the header's value, the hash of the body and the handler.
unfoldable pub require_idempotency_key : Option String → String → Action Response → Action Response
require_idempotency_key header request_hash handler =
    if not (is_set header) then pure (400, error_body "Idempotency-Key header is required") else do
      let key = or_else header ""
      existing ← get_existing_response key
      match_option existing (answer_again request_hash) (run_handler key request_hash handler)
