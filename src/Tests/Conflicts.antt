-- ===== src/Tests/Conflicts.antt =====
-- A second request that comes with a key in use, and with another body of work.
use expenseflow.Common.{◌≡◌, refl, [], ◌∷◌, true, ok, err, arith, ℕ}
use expenseflow.Database.{memory, memory-IsClient}
use expenseflow.Idempotency.{Request, ClaimInput, claim_input, intercept}
use expenseflow.Idempotency.Pending.{IsSameKey, refusal, intercept-refused}
use expenseflow.RateLimits.{path_of}
use expenseflow.Tests.{store, env_at}
use expenseflow.Tests.Keys.{json, hashing, request, input, claimed_store, claims, answers}

abbrev other_request : Request ℕ
other_request = record request { original_url = 47 ∷ 98 ∷ [] }

abbrev other_input : ClaimInput
other_input = record input { path = 47 ∷ 98 ∷ []; request_hash = 80 ∷ 47 ∷ 98 ∷ [] }

other_valid : claim_input hashing other_request ≡ ok other_input
unfolding claim_input path_of
other_valid = refl

same_key : IsSameKey other_input input
same_key = record { organization = refl; actor = refl; key = refl }

intercept-refused_example :
    intercept memory json hashing true 1 (env_at 200 41) other_request answers claimed_store
    ≡ (err (refusal input other_input), claimed_store)
intercept-refused_example =
    intercept-refused memory memory-IsClient json hashing 2 0 (env_at 100 40) (env_at 200 41)
      other_request answers input other_input (40 ∷ 0 ∷ []) store claimed_store claimed_store claims
      refl other_valid same_key (omega arith)
