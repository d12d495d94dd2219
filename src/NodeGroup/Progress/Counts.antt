-- ===== src/NodeGroup/Progress/Counts.antt =====
-- How many entries are active and how many are completed, and how the changes of the controller
-- move the two numbers.
use kubernetes_upgrade_opera.Base.{
  ℕ, suc, ◌≤◌, String, ◌≡◌, refl, Bool, List, [], ◌∷◌, if◌then◌else◌, arith, length,
}
use kubernetes_upgrade_opera.Types.{NodeProgress}
use kubernetes_upgrade_opera.NodeGroup.Progress.{is_set, is_active, active_batch, change_named}
use kubernetes_upgrade_opera.NodeGroup.Progress.Changes.{change_named-cons, change_named-nil}

-- `CompletedAt != nil`
unfoldable pub is_completed : NodeProgress → Bool
unfolding is_set
is_completed np = is_set np.completed_at

unfoldable pub active_count : List NodeProgress → ℕ
active_count [] = 0
active_count (np ∷ progress) =
    let rest = active_count progress in if is_active np then suc rest else rest

unfoldable pub completed_count : List NodeProgress → ℕ
unfolding is_completed
completed_count [] = 0
completed_count (np ∷ progress) =
    let rest = completed_count progress in if is_completed np then suc rest else rest

pub length-active_batch :
    (progress : List NodeProgress) → length (active_batch progress) ≡ active_count progress
unfolding active_batch active_count
length-active_batch [] = refl
length-active_batch (np ∷ progress) = ground (arith, length-active_batch progress)

-- A change that keeps both times keeps both counts.
abbrev pub KeepsTimes : (NodeProgress → NodeProgress) → Type 0
KeepsTimes f =
    (np : NodeProgress)
    → (is_active (f np) ≡ is_active np) × (is_completed (f np) ≡ is_completed np)

module _ (name : String) (f : NodeProgress → NodeProgress) where
  pub active_count-keep :
      (progress : List NodeProgress)
      → KeepsTimes f
      → active_count (change_named name f progress) ≡ active_count progress
  unfolding active_count
  active_count-keep [] keep = rw change_named-nil
  active_count-keep (np ∷ progress) keep =
      rw change_named-cons (ground (arith, keep np, active_count-keep progress keep))

  pub completed_count-keep :
      (progress : List NodeProgress)
      → ((np : NodeProgress) → is_completed (f np) ≡ is_completed np)
      → completed_count (change_named name f progress) ≡ completed_count progress
  unfolding completed_count
  completed_count-keep [] keep = rw change_named-nil
  completed_count-keep (np ∷ progress) keep =
      rw change_named-cons (ground (arith, keep np, completed_count-keep progress keep))

  -- One changed entry is at most one more active entry.
  pub active_count-change :
      (progress : List NodeProgress)
      → active_count (change_named name f progress) ≤ suc (active_count progress)
  unfolding active_count
  active_count-change [] = rw change_named-nil (omega arith)
  active_count-change (np ∷ progress) =
      rw change_named-cons (ground (arith, active_count-change progress))
