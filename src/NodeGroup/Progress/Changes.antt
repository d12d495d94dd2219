-- ===== src/NodeGroup/Progress/Changes.antt =====
-- Changing the entry of one name leaves the other entries and all names as they are.
use kubernetes_upgrade_opera.Base.{
  String, ◌≡◌, ◌≢◌, refl, List, [], ◌∷◌, if◌then◌else◌, str_eq, arith, All, Bool-cases, inl, inr,
}
use kubernetes_upgrade_opera.Types.{NodeProgress}
use kubernetes_upgrade_opera.NodeGroup.Progress.{change_named}

abbrev pub entry_names : List NodeProgress → List String
entry_names [] = []
entry_names (np ∷ progress) = np.name ∷ entry_names progress

-- The names of a list are pairwise different.
abbrev pub Distinct : List String → Type 0
Distinct [] = Unit
Distinct (n ∷ names) = All (λ m. n ≢ m) names × Distinct names

-- `change_named` by recursion.
pub change_named-cons :
    (name : String) (f : NodeProgress → NodeProgress) (np : NodeProgress)
    (progress : List NodeProgress)
    → change_named name f (np ∷ progress)
      ≡ (if str_eq np.name name then f np ∷ progress else np ∷ change_named name f progress)
unfolding change_named
change_named-cons name f np progress = ground arith

pub change_named-nil :
    (name : String) (f : NodeProgress → NodeProgress) → change_named name f [] ≡ []
unfolding change_named
change_named-nil name f = refl

-- A change that keeps the name of an entry keeps the list of names.
pub entry_names-change_named :
    (name : String) (f : NodeProgress → NodeProgress) (progress : List NodeProgress)
    → ((np : NodeProgress) → (f np).name ≡ np.name)
    → entry_names (change_named name f progress) ≡ entry_names progress
entry_names-change_named name f [] keep = rw change_named-nil
entry_names-change_named name f (np ∷ progress) keep =
    rw change_named-cons (ground (arith, keep np, entry_names-change_named name f progress keep))

-- A property of every entry survives a change that keeps it.
pub All-change_named :
    (P : NodeProgress → Type 0) (name : String) (f : NodeProgress → NodeProgress)
    (progress : List NodeProgress)
    → ((np : NodeProgress) → P np → P (f np))
    → All P progress
    → All P (change_named name f progress)
All-change_named P name f [] keep all = rw change_named-nil tt
All-change_named P name f (np ∷ progress) keep all =
    rw change_named-cons (elim (Bool-cases (str_eq np.name name)) [
      | inl same ↦ rw same (keep np all.0, all.1)
      | inr differ ↦ rw differ (all.0, All-change_named P name f progress keep all.1)
    ])
