-- ===== src/Idempotency/Commits.antt =====
-- The decorator commits nothing of its own.
use paysika.Prelude.{String, Option, ◌≡◌, ◌⊎◌, arith}
use paysika.Store.{State, Action, ◌>>=◌}
use paysika.Idempotency.{
  Response, require_idempotency_key, get_existing_response, run_handler, save_response,
  cache_response, answer_again,
}

module _ (header : Option String) (hash : String) (handler : Action Response) (s : State) where
  -- A request under the decorator leaves the committed tables alone, or commits what its handler does.
  pub require_idempotency_key_commits :
      let s' = (require_idempotency_key header hash handler s).1 in
      (s'.committed ≡ s.committed) ⊎ (s'.committed ≡ (handler s).1.committed)
  unfolding require_idempotency_key get_existing_response run_handler save_response cache_response
      answer_again ◌>>=◌
  require_idempotency_key_commits = ground arith
