-- ===== src/Batches.antt =====
-- pkg/upgrade/batches.go: how many nodes of a group are acted on at once, and which come next.
--
-- `intstr.GetScaledValueFromIntOrPercent` of k8s.io/apimachinery is a parameter: `scaled v total`
-- is its value rounded down, or `none` for its error.
pub mod Limit
pub mod Selection
pub mod Flagged
use kubernetes_upgrade_opera.Base.{
  ℕ, zero, suc, ◌+◌, ℤ, pos, negsuc, pos_part, ◌-ℤ◌, ltb_ℤ, leb_ℤ, String, Bool, true, false, ◌||◌,
  Option, none, some, List, [], ◌∷◌, length, leb, if◌then◌else◌, str_eq,
}
use kubernetes_upgrade_opera.Result.{Result, ok, err, resolving_max_unavailable, ◌>>=◌}

-- intstr.IntOrString
pub data IntOrString : Type 0 where
  int_val : ℤ → IntOrString
  str_val : String → IntOrString

abbrev pub Scaled : Type 0
Scaled = IntOrString → ℤ → Option ℤ

-- Go's `map[string]bool`, as an association list without repeated keys.
abbrev pub Flags : Type 0
Flags = List (String × Bool)

-- m[k], which is false at a missing key
unfoldable pub flag : Flags → String → Bool
flag [] k = false
flag ((j, b) ∷ m) k = if str_eq j k then b else flag m k

-- m[k] = true
unfoldable pub set_flag : Flags → String → Flags
set_flag [] k = (k, true) ∷ []
set_flag ((j, b) ∷ m) k = if str_eq j k then (j, true) ∷ m else (j, b) ∷ set_flag m k

-- the end of ResolveConcurrency: the limit brought into [1, total]
unfoldable pub clamp : ℤ → ℤ → ℤ
clamp total limit =
    let low = if ltb_ℤ limit (pos 1) then pos 1 else limit in if ltb_ℤ total low then total else low

module _ (scaled : Scaled) where
  -- the second case of the `switch` of ResolveConcurrency, and its default of 1
  unfoldable pub by_unavailable : ℤ → Option IntOrString → Result ℤ
  by_unavailable total none = ok (pos 1)
  by_unavailable total (some v) = elim (scaled v total) [
    | none ↦ err resolving_max_unavailable
    | some n ↦ ok n
  ]

  -- the `switch` of ResolveConcurrency: a positive batch size comes first
  unfoldable pub unclamped : ℤ → Option ℤ → Option IntOrString → Result ℤ
  unfolding by_unavailable
  unclamped total (some b) unavailable =
      if ltb_ℤ (pos 0) b then ok b else by_unavailable total unavailable
  unclamped total none unavailable = by_unavailable total unavailable

  unfoldable pub resolve_concurrency : ℤ → Option ℤ → Option IntOrString → Result ℤ
  unfolding unclamped clamp
  resolve_concurrency total batch_size max_unavailable =
      if leb_ℤ total (pos 0)
      then ok (pos 0)
      else do limit ← unclamped total batch_size max_unavailable; ok (clamp total limit)

-- The loop of NextBatch, with `chosen` for the length of what it has appended so far.
unfoldable pub select : Flags → Flags → ℕ → List String → ℕ → List String
unfolding flag
select done in_progress available [] chosen = []
select done in_progress available (n ∷ nodes) chosen =
    let without = select done in_progress available nodes chosen in
    let more = select done in_progress available nodes (suc chosen) in
    if flag done n || flag in_progress n
    then without
    else if leb available (suc chosen)
    then n ∷ []
    else n ∷ more

module _ (scaled : Scaled) where
  unfoldable pub next_batch :
      List String → Flags → Flags → Option ℤ → Option IntOrString → Result (List String)
  unfolding select
  next_batch nodes done in_progress batch_size max_unavailable = do
    limit ← resolve_concurrency scaled (pos (length nodes)) batch_size max_unavailable
    let available = limit -ℤ pos (length in_progress)
    if leb_ℤ available (pos 0)
        then ok []
        else ok (select done in_progress (pos_part available) nodes 0)
