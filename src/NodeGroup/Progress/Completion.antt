-- ===== src/NodeGroup/Progress/Completion.antt =====
-- Completing the active batch, entry by entry, as the last loop of nodegroupupgrade_verifying.go.
use kubernetes_upgrade_opera.Base.{
  ◌+◌, String, ◌≡◌, ◌≢◌, refl, true, false, some, List, [], ◌∷◌, if◌then◌else◌, str_eq, eq_iff,
  arith, All, Bool-cases, inl, inr, ap, ◌∙◌,
}
use kubernetes_upgrade_opera.Core.{Time}
use kubernetes_upgrade_opera.Types.{NodeProgress, NodeStage}
use kubernetes_upgrade_opera.NodeGroup.Progress.{is_active, active_batch, change_named}
use kubernetes_upgrade_opera.NodeGroup.Progress.Changes.{
  entry_names, Distinct, change_named-cons, entry_names-change_named,
}
use kubernetes_upgrade_opera.NodeGroup.Progress.Counts.{is_completed, active_count, completed_count}

abbrev pub completed : Time → NodeProgress → NodeProgress
completed t np = record np { completed_at = some t; phase = NodeStage.ready }

unfoldable pub complete_names : Time → List String → List NodeProgress → List NodeProgress
complete_names t [] progress = progress
complete_names t (name ∷ names) progress =
    complete_names t names (change_named name (completed t) progress)

str_eq-ne : (a b : String) → a ≢ b → str_eq a b ≡ false
str_eq-ne a b h = ground (arith, eq_iff a b)

-- Names of other entries pass over the first one.
complete_names-skip :
    (t : Time) (names : List String) (np : NodeProgress) (progress : List NodeProgress)
    → All (λ m. np.name ≢ m) names
    → complete_names t names (np ∷ progress) ≡ np ∷ complete_names t names progress
unfolding complete_names
complete_names-skip t [] np progress all = refl
complete_names-skip t (name ∷ names) np progress all =
    rw (change_named-cons, str_eq-ne np.name name all.0)
      (complete_names-skip t names np (change_named name (completed t) progress) all.1)

All-active_batch :
    (P : String → Type 0) (progress : List NodeProgress)
    → All P (entry_names progress)
    → All P (active_batch progress)
unfolding active_batch
All-active_batch P [] all = tt
All-active_batch P (np ∷ progress) all = elim (Bool-cases (is_active np)) [
  | inl active ↦ rw active (all.0, All-active_batch P progress all.1)
  | inr idle ↦ rw idle (All-active_batch P progress all.1)
]

not_completed : (np : NodeProgress) → is_active np ≡ true → is_completed np ≡ false
unfolding is_active is_completed
not_completed np h = ground arith

completed_lem :
    (t : Time) (np : NodeProgress)
    → (is_completed (completed t np) ≡ true) × (is_active (completed t np) ≡ false)
unfolding is_active is_completed
completed_lem t np = ground arith

str_eq_self : (a : String) → str_eq a a ≡ true
str_eq_self a = (eq_iff a a).1 refl

complete_names-head :
    (t : Time) (np : NodeProgress) (progress : List NodeProgress)
    → All (λ m. np.name ≢ m) (entry_names progress)
    → complete_names t (np.name ∷ active_batch progress) (np ∷ progress)
      ≡ completed t np ∷ complete_names t (active_batch progress) progress
unfolding complete_names
complete_names-head t np progress d =
    ap (complete_names t (active_batch progress)) (changed np)
    ∙ complete_names-skip t (active_batch progress) (completed t np) progress
        (All-active_batch (λ m. np.name ≢ m) progress d)
  where
    changed :
        (np : NodeProgress)
        → change_named np.name (completed t) (np ∷ progress) ≡ completed t np ∷ progress
    changed np = rw (change_named-cons, str_eq_self np.name)

complete_names-cons :
    (t : Time) (np : NodeProgress) (progress : List NodeProgress)
    → All (λ m. np.name ≢ m) (entry_names progress)
    → complete_names t (active_batch (np ∷ progress)) (np ∷ progress)
      ≡ (if is_active np then completed t np else np)
        ∷ complete_names t (active_batch progress) progress
unfolding active_batch
complete_names-cons t np progress d = elim (Bool-cases (is_active np)) [
  | inl active ↦ rw active (complete_names-head t np progress d)
  | inr idle ↦ rw idle (
      complete_names-skip t (active_batch progress) np progress
        (All-active_batch (λ m. np.name ≢ m) progress d))
]

-- Completing the active batch completes each of its entries once, and none stays active.
pub complete_names-active_batch :
    (t : Time) (progress : List NodeProgress)
    → Distinct (entry_names progress)
    → let after = complete_names t (active_batch progress) progress in
      (completed_count after ≡ completed_count progress + active_count progress)
      × (active_count after ≡ 0)
unfolding completed_count active_count
complete_names-active_batch t [] d = unfold complete_names active_batch in (refl, refl)
complete_names-active_batch t (np ∷ progress) d =
    let (c, a) = complete_names-active_batch t progress d.1 in
    rw (complete_names-cons t np progress d.0) (
      ground (arith, c, not_completed np, completed_lem t np),
      ground (arith, a, completed_lem t np),
    )

-- The names stay as they are.
pub entry_names-complete_names :
    (t : Time) (names : List String) (progress : List NodeProgress)
    → entry_names (complete_names t names progress) ≡ entry_names progress
unfolding complete_names
entry_names-complete_names t [] progress = refl
entry_names-complete_names t (name ∷ names) progress =
    entry_names-complete_names t names (change_named name (completed t) progress)
    ∙ entry_names-change_named name (completed t) progress (λ np. refl)
