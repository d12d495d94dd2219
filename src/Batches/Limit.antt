-- ===== src/Batches/Limit.antt =====
-- The concurrency limit of pkg/upgrade/batches.go.
use Prim.Native.Nat.{min}
use kubernetes_upgrade_opera.Base.{
  ℕ, zero, suc, ℤ, pos, ◌≤ℤ◌, leb_ℤ, ◌≡◌, false, Option, some, arith,
}
use kubernetes_upgrade_opera.Result.{Result, ok, err, ◌>>=◌}
use kubernetes_upgrade_opera.Batches.{IntOrString, Scaled, clamp, unclamped, resolve_concurrency}

clamp_bounds :
    (n : ℕ) (limit : ℤ)
    → (pos 1 ≤ℤ clamp (pos (suc n)) limit) × (clamp (pos (suc n)) limit ≤ℤ pos (suc n))
unfolding clamp
clamp_bounds n limit = ground arith

clamped :
    (n : ℕ) (r : Result ℤ) {limit : ℤ}
    → (do low ← r; ok (clamp (pos (suc n)) low)) ≡ ok limit
    → (pos 1 ≤ℤ limit) × (limit ≤ℤ pos (suc n))
clamped n (ok low) e = ground (arith, clamp_bounds n low)
clamped n (err x) e = cc

not_empty : (n : ℕ) → leb_ℤ (pos (suc n)) (pos 0) ≡ false
not_empty n = ground arith

-- For a group of at least one node the limit, where there is one, lies between 1 and the size of
-- the group.
pub resolve_concurrency-bounds :
    (scaled : Scaled) (n : ℕ) (batch_size : Option ℤ) (max_unavailable : Option IntOrString)
    {limit : ℤ}
    → resolve_concurrency scaled (pos (suc n)) batch_size max_unavailable ≡ ok limit
    → (pos 1 ≤ℤ limit) × (limit ≤ℤ pos (suc n))
unfolding resolve_concurrency
resolve_concurrency-bounds scaled n batch_size max_unavailable h =
    clamped n (unclamped scaled (pos (suc n)) batch_size max_unavailable) (rw (not_empty n) at h)

-- A positive batch size decides the limit alone: it is the batch size, or the size of the group
-- where that is smaller.
pub resolve_concurrency-batch :
    (scaled : Scaled) (n b : ℕ) (max_unavailable : Option IntOrString)
    → resolve_concurrency scaled (pos (suc n)) (some (pos (suc b))) max_unavailable
      ≡ ok (pos (min (suc b) (suc n)))
unfolding resolve_concurrency
resolve_concurrency-batch scaled n b max_unavailable = ground arith

-- The limit is never negative.
pub resolve_concurrency-nonneg :
    (scaled : Scaled) (n : ℕ) (batch_size : Option ℤ) (max_unavailable : Option IntOrString)
    {limit : ℤ}
    → resolve_concurrency scaled (pos n) batch_size max_unavailable ≡ ok limit
    → pos 0 ≤ℤ limit
resolve_concurrency-nonneg scaled zero batch_size max_unavailable h =
    unfold resolve_concurrency in ground arith
resolve_concurrency-nonneg scaled (suc n) batch_size max_unavailable h =
    omega (arith, resolve_concurrency-bounds scaled n batch_size max_unavailable h)
