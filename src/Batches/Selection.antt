-- ===== src/Batches/Selection.antt =====
-- The selection of pkg/upgrade/batches.go against a reference: the first nodes, in the order given,
-- that are neither done nor in progress.
use kubernetes_upgrade_opera.Base.{
  ℕ, zero, suc, ◌+◌, ◌-◌, ◌≤◌, ◌<◌, ℤ, pos, pos_part, ◌-ℤ◌, leb_ℤ, String, ◌≡◌, refl, true, false,
  ◌||◌, Option, List, [], ◌∷◌, length, if◌then◌else◌, arith, inl, inr, ap, dec_lt, ◌⊎◌,
}
use kubernetes_upgrade_opera.Result.{Error, Result, ok, err}
use kubernetes_upgrade_opera.Batches.{
  IntOrString, Scaled, Flags, flag, select, resolve_concurrency, next_batch,
}

abbrev pub take {ℓ} : {A : Type ℓ} → ℕ → List A → List A
take zero xs = []
take (suc n) [] = []
take (suc n) (x ∷ xs) = x ∷ take n xs

-- The nodes that are neither done nor in progress.
unfoldable pub eligible : Flags → Flags → List String → List String
eligible done in_progress [] = []
eligible done in_progress (n ∷ nodes) =
    let rest = eligible done in_progress nodes in
    if flag done n || flag in_progress n then rest else n ∷ rest

select-eq-take :
    (done in_progress : Flags) (available room chosen : ℕ) (nodes : List String)
    → available ≡ suc room + chosen
    → select done in_progress available nodes chosen
      ≡ take (suc room) (eligible done in_progress nodes)
unfolding select eligible
select-eq-take done in_progress available room chosen [] e = refl
select-eq-take done in_progress available zero chosen (n ∷ nodes) e =
    ground (arith, select-eq-take done in_progress available zero chosen nodes e)
select-eq-take done in_progress available (suc room) chosen (n ∷ nodes) e = ground (
  arith,
  select-eq-take done in_progress available (suc room) chosen nodes e,
  select-eq-take done in_progress available room (suc chosen) nodes,
)

-- The room that the limit leaves: none, or at least one place.
Room : ℤ → ℕ → Type 0
Room limit k =
    ((leb_ℤ (limit -ℤ pos k) (pos 0) ≡ true) × (pos_part limit - k ≡ 0))
    ⊎ ((leb_ℤ (limit -ℤ pos k) (pos 0) ≡ false)
        × (pos_part (limit -ℤ pos k) ≡ suc (pos_part limit - k - 1))
        × (pos_part limit - k ≡ suc (pos_part limit - k - 1)))

Room-cases : (limit : ℤ) (k : ℕ) → Room limit k
unfolding Room ◌-ℤ◌
Room-cases limit k = elim (dec_lt k (pos_part limit)) [
  | yes some_left ↦ inr (ground arith, ground arith, ground arith)
  | no full ↦ inl (ground arith, ground arith)
]

module _ (scaled : Scaled) (nodes : List String) (done in_progress : Flags) (batch_size : Option ℤ)
    (max_unavailable : Option IntOrString) where
  -- Where the concurrency limit resolves, the next batch is the longest prefix of the eligible nodes that keeps the limit, beside the
  -- nodes in progress.
  pub next_batch-eq-take :
      (limit : ℤ)
      → resolve_concurrency scaled (pos (length nodes)) batch_size max_unavailable ≡ ok limit
      → next_batch scaled nodes done in_progress batch_size max_unavailable
        ≡ ok (take (pos_part limit - length in_progress) (eligible done in_progress nodes))
  unfolding next_batch Room
  next_batch-eq-take limit e = elim (Room-cases limit (length in_progress)) [
    | inl (full, zero_left) ↦ rw (e, full, zero_left)
    | inr (free, room, left) ↦
        rw (e, free, left, room)
          (ap ok (
            select-eq-take done in_progress (suc (pos_part limit - length in_progress - 1))
              (pos_part limit - length in_progress - 1) 0 nodes (omega arith)))
  ]

Result-cases {ℓ} :
    {A : Type ℓ} (r : Result A) → ((a : A) × (r ≡ ok a)) ⊎ ((e : Error) × (r ≡ err e))
Result-cases (ok a) = inl (a, refl)
Result-cases (err e) = inr (e, refl)

-- A next batch comes with a resolved limit.
pub next_batch-ok :
    (scaled : Scaled) (nodes : List String) (done in_progress : Flags) (batch_size : Option ℤ)
    (max_unavailable : Option IntOrString) {next : List String}
    → next_batch scaled nodes done in_progress batch_size max_unavailable ≡ ok next
    → (limit : ℤ) × (resolve_concurrency scaled (pos (length nodes)) batch_size max_unavailable
        ≡ ok limit)
unfolding next_batch
next_batch-ok scaled nodes done in_progress batch_size max_unavailable h =
    elim (Result-cases
      (resolve_concurrency scaled (pos (length nodes)) batch_size max_unavailable)) [
        | inl found ↦ found
        | inr (e, failed) ↦ absurd (cc (rw failed at h))
      ]

pub length-take {ℓ} : {A : Type ℓ} (n : ℕ) (xs : List A) → length (take n xs) ≤ n
length-take zero xs = omega arith
length-take (suc n) [] = omega arith
length-take (suc n) (x ∷ xs) = omega (arith, length-take n xs)

pub take-eq-nil {ℓ} : {A : Type ℓ} (n : ℕ) (xs : List A) → 0 < n → take n xs ≡ [] → xs ≡ []
take-eq-nil zero xs h e = absurd (omega arith)
take-eq-nil (suc n) [] h e = refl
take-eq-nil (suc n) (x ∷ xs) h e = cc

module _ (scaled : Scaled) (nodes : List String) (done in_progress : Flags) (batch_size : Option ℤ)
    (max_unavailable : Option IntOrString) {next : List String} {limit : ℤ}
    (chosen : next_batch scaled nodes done in_progress batch_size max_unavailable ≡ ok next)
    (resolved : resolve_concurrency scaled (pos (length nodes)) batch_size max_unavailable
      ≡ ok limit) where
  -- The next batch as a prefix of the eligible nodes.
  pub next-eq-take :
      next ≡ take (pos_part limit - length in_progress) (eligible done in_progress nodes)
  next-eq-take = cc (
    chosen,
    next_batch-eq-take scaled nodes done in_progress batch_size max_unavailable limit resolved,
  )

  -- The next batch has no more nodes than the limit leaves beside those in progress.
  pub length-next : length next ≤ pos_part limit - length in_progress
  length-next = rw next-eq-take (length-take _ (eligible done in_progress nodes))
