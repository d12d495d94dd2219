-- ===== src/NodeGroup/Counts/Laws.antt =====
-- The counts of internal/controller/metrics_helpers.go, against the number of the nodes of one phase.
use kubernetes_upgrade_opera.Base.{
  ℕ, zero, suc, ◌+◌, ℤ, pos, int32, int32-suc, String, true, false, Bool-cases, Option, none, some,
  List, [], ◌∷◌, ◌≡◌, refl, sym, ap, ◌∙◌, inl, inr, arith, if◌then◌else◌, str_eq, ◌<◌, eq_iff,
  eq_refl,
}
use kubernetes_upgrade_opera.Types.{NodeProgress}
use kubernetes_upgrade_opera.NodeGroup.Counts.{
  Counts, count_at, put_count, add_one, counted_phase, zero_each, count_each,
  node_group_phase_counts,
}

-- How many of the nodes are counted under the phase.
unfoldable pub nodes_in : String → List NodeProgress → ℕ
nodes_in k [] = 0
nodes_in k (np ∷ progress) =
    let rest = nodes_in k progress in if str_eq (counted_phase np) k then suc rest else rest

-- The entry of a map that counts `n` nodes.
unfoldable pub count_entry : ℕ → Option ℤ
count_entry zero = none
count_entry (suc n) = some (int32 (pos (suc n)))

-- An entry that is put is read, and the others are as before.
count_at-put_count :
    (k j : String) (v : ℤ) (counts : Counts)
    → count_at k (put_count j v counts) ≡ (if str_eq j k then some v else count_at k counts)
unfolding put_count count_at
count_at-put_count k j v [] = refl
count_at-put_count k j v ((i, w) ∷ counts) = elim (Bool-cases (str_eq i j)) [
  | inl e ↦
      let same : i ≡ j = (eq_iff i j).0 e in
      elim (Bool-cases (str_eq j k)) [
        | inl f ↦ rw e (rw same (rw f refl))
        | inr f ↦ rw e (rw same (rw f refl))
      ]
  | inr e ↦ elim (Bool-cases (str_eq i k)) [
    | inl f ↦
        let same : i ≡ k = (eq_iff i k).0 f in
        elim (Bool-cases (str_eq j k)) [
          | inl g ↦
              let again : str_eq i j ≡ true = rw same (rw ((eq_iff j k).0 g) (eq_refl k)) in
              absurd cc
          | inr g ↦ rw e (rw f (rw g refl))
        ]
    | inr f ↦ rw e (rw f (count_at-put_count k j v counts))
  ]
]

count_at-add_one :
    (k j : String) (n : ℕ) (counts : Counts)
    → str_eq j k ≡ true
    → count_at k counts ≡ some (int32 (pos n))
    → count_at k (add_one j counts) ≡ some (int32 (pos (suc n)))
unfolding add_one
count_at-add_one k j n counts e h =
    count_at-put_count k j _ counts ∙ rw e (rw ((eq_iff j k).0 e) (rw h (ap some (int32-suc n))))

module _ (k : String) (np : NodeProgress) (progress : List NodeProgress) where
  nodes_in-here :
      str_eq (counted_phase np) k ≡ true → nodes_in k (np ∷ progress) ≡ suc (nodes_in k progress)
  unfolding nodes_in
  nodes_in-here e = rw e refl

  nodes_in-elsewhere :
      str_eq (counted_phase np) k ≡ false → nodes_in k (np ∷ progress) ≡ nodes_in k progress
  unfolding nodes_in
  nodes_in-elsewhere e = rw e refl

module _ (k : String) where
  count_at-put_count_other :
      (j : String) (v : ℤ) (counts : Counts)
      → str_eq j k ≡ false
      → count_at k (put_count j v counts) ≡ count_at k counts
  count_at-put_count_other j v counts e = count_at-put_count k j v counts ∙ rw e refl

  count_each-absent :
      (progress : List NodeProgress) (counts : Counts)
      → nodes_in k progress ≡ 0
      → count_at k (count_each progress counts) ≡ count_at k counts
  unfolding count_each add_one
  count_each-absent [] counts h = refl
  count_each-absent (np ∷ progress) counts h = elim (Bool-cases (str_eq (counted_phase np) k)) [
    | inl e ↦ absurd (omega (arith, nodes_in-here k np progress e, h))
    | inr e ↦
        count_each-absent progress _ (sym (nodes_in-elsewhere k np progress e) ∙ h)
        ∙ count_at-put_count_other (counted_phase np) _ counts e
  ]

  count_each-counts :
      (progress : List NodeProgress) (n : ℕ) (counts : Counts)
      → count_at k counts ≡ some (int32 (pos n))
      → count_at k (count_each progress counts) ≡ some (int32 (pos (n + nodes_in k progress)))
  unfolding count_each add_one nodes_in
  count_each-counts [] n counts h = h ∙ ap (λ (m : ℕ). some (int32 (pos m))) (omega arith)
  count_each-counts (np ∷ progress) n counts h = elim (Bool-cases (str_eq (counted_phase np) k)) [
    | inl e ↦
        count_each-counts progress (suc n) _ (count_at-add_one k (counted_phase np) n counts e h)
        ∙ ap (λ (m : ℕ). some (int32 (pos m))) (omega (arith, nodes_in-here k np progress e))
    | inr e ↦
        count_each-counts progress n _ (count_at-put_count_other (counted_phase np) _ counts e ∙ h)
        ∙ ap (λ (m : ℕ). some (int32 (pos m))) (omega (arith, nodes_in-elsewhere k np progress e))
  ]

  zero_each-absent :
      (progress : List NodeProgress) (counts : Counts)
      → nodes_in k progress ≡ 0
      → count_at k (zero_each progress counts) ≡ count_at k counts
  unfolding zero_each
  zero_each-absent [] counts h = refl
  zero_each-absent (np ∷ progress) counts h = elim (Bool-cases (str_eq (counted_phase np) k)) [
    | inl e ↦ absurd (omega (arith, nodes_in-here k np progress e, h))
    | inr e ↦
        zero_each-absent progress _ (sym (nodes_in-elsewhere k np progress e) ∙ h)
        ∙ count_at-put_count_other (counted_phase np) _ counts e
  ]

  zero_each-kept :
      (progress : List NodeProgress) (counts : Counts)
      → count_at k counts ≡ some (pos 0)
      → count_at k (zero_each progress counts) ≡ some (pos 0)
  unfolding zero_each
  zero_each-kept [] counts h = h
  zero_each-kept (np ∷ progress) counts h = zero_each-kept progress _ (
      count_at-put_count k (counted_phase np) (pos 0) counts
      ∙ elim (Bool-cases (str_eq (counted_phase np) k)) [ inl e ↦ rw e refl | inr e ↦ rw e h ])

  zero_each-present :
      (progress : List NodeProgress) (counts : Counts)
      → 0 < nodes_in k progress
      → count_at k (zero_each progress counts) ≡ some (pos 0)
  unfolding zero_each nodes_in
  zero_each-present [] counts h = absurd (omega arith)
  zero_each-present (np ∷ progress) counts h = elim (Bool-cases (str_eq (counted_phase np) k)) [
    | inl e ↦
        zero_each-kept progress _
          (count_at-put_count k (counted_phase np) (pos 0) counts ∙ rw e refl)
    | inr e ↦ zero_each-present progress _ (omega (arith, nodes_in-elsewhere k np progress e, h))
  ]

  of_total :
      (progress : List NodeProgress) (n : ℕ)
      → nodes_in k progress ≡ n
      → count_at k (node_group_phase_counts progress) ≡ count_entry n
  unfolding node_group_phase_counts count_entry int32
  of_total progress zero h =
      count_each-absent progress (zero_each progress []) h ∙ zero_each-absent progress [] h
  of_total progress (suc n) h =
      count_each-counts progress 0 (zero_each progress [])
        (zero_each-present progress [] (omega (arith, h)))
      ∙ ap (λ (m : ℕ). some (int32 (pos m))) (omega (arith, h))

  -- The counts have an entry for each phase that some node is in, and for no other; it is the number
  -- of the nodes in that phase, as an int32.
  pub node_group_phase_counts-entry :
      (progress : List NodeProgress)
      → count_at k (node_group_phase_counts progress) ≡ count_entry (nodes_in k progress)
  node_group_phase_counts-entry progress = of_total progress (nodes_in k progress) refl
