-- ===== src/RateLimits/Buckets.antt =====
-- What a request does to the buckets of rate-limit.service.ts.
use expenseflow.Common.{
  ℕ, ◌+◌, ◌<◌, ◌≡◌, ◌≢◌, refl, Text, text_is_eq, text_eq_iff, text_eq_refl, text_eq, List, [], ◌∷◌,
  leb, ltb, some, length, if◌then◌else◌, arith, Bool-cases, inl, inr, ◌∙◌,
}
use expenseflow.RateLimits.{
  Bucket, find_bucket, set_bucket, remove_expired, current_bucket, counted, consume, max_buckets,
}

pub find-set_same : (b : Bucket) (bs : List Bucket) → find_bucket b.key (set_bucket b bs) ≡ some b
unfolding find_bucket set_bucket
find-set_same b [] = ground (arith, text_eq_refl b.key)
find-set_same b (a ∷ bs) = ground (arith, text_eq_refl b.key, find-set_same b bs)

find-set_other :
    (b : Bucket) (k : Text) (bs : List Bucket)
    → b.key ≢ k
    → find_bucket k (set_bucket b bs) ≡ find_bucket k bs
unfolding find_bucket set_bucket
find-set_other b k [] h = ground (arith, text_eq_iff b.key k)
find-set_other b k (a ∷ bs) h = elim (Bool-cases (text_eq a.key b.key)) [
  | inl e ↦ ground (arith, text_eq_iff b.key k, text_eq_iff a.key b.key, text_eq_iff a.key k)
  | inr e ↦ ground (arith, find-set_other b k bs h)
]

find-remove_expired :
    (now : ℕ) (k : Text) (b : Bucket) (bs : List Bucket)
    → find_bucket k bs ≡ some b
    → now < b.reset_at
    → find_bucket k (remove_expired now bs) ≡ some b
unfolding find_bucket remove_expired
find-remove_expired now k b [] e h = absurd (cc)
find-remove_expired now k b (a ∷ bs) e h = ground (arith, find-remove_expired now k b bs)

pub stored-stays :
    (now : ℕ) (k : Text) (b : Bucket) (stored : List Bucket)
    → find_bucket k stored ≡ some b
    → now < b.reset_at
    → find_bucket k (if ltb max_buckets (length stored) then remove_expired now stored else stored)
      ≡ some b
stored-stays now k b stored e h = elim (Bool-cases (ltb max_buckets (length stored))) [
  | inl t ↦ rw t (find-remove_expired now k b stored e h)
  | inr f ↦ rw f e
]

-- Consuming for one key leaves the live bucket of another key as it is, the cleanup of expired
-- buckets included.
pub consume-others :
    (key k : Text) (limit window_ms now : ℕ) (b : Bucket) (buckets : List Bucket)
    → key ≢ k
    → find_bucket k buckets ≡ some b
    → now < b.reset_at
    → find_bucket k (consume key limit window_ms now buckets).1 ≡ some b
unfolding consume counted
consume-others key k limit window_ms now b buckets h e live =
    stored-stays now k b _ (find-set_other _ k buckets h ∙ e) live

current_bucket-live :
    (key : Text) (window_ms now : ℕ) (b : Bucket)
    → now < b.reset_at
    → current_bucket key window_ms now (some b) ≡ b
unfolding current_bucket
current_bucket-live key window_ms now b live = ground arith

-- A request of a live bucket is counted in it, and allowed while the count is within the limit.
pub consume-own :
    (key : Text) (limit window_ms now : ℕ) (b : Bucket) (buckets : List Bucket)
    → find_bucket key buckets ≡ some b
    → now < b.reset_at
    → (find_bucket key (consume key limit window_ms now buckets).1
        ≡ some (record { key = key; count = b.count + 1; reset_at = b.reset_at }))
      × ((consume key limit window_ms now buckets).0.allowed ≡ leb (b.count + 1) limit)
unfolding consume counted
consume-own key limit window_ms now b buckets e live =
    let same : current_bucket key window_ms now (find_bucket key buckets) ≡ b =
      rw e (current_bucket-live key window_ms now b live) in
    (rw same (stored-stays now key _ _ (find-set_same _ buckets) live), rw same refl)
