-- ===== src/NodeGroup/Progress/Marks.antt =====
-- The maps that nextBatchFor fills, and what an empty next batch says.
use kubernetes_upgrade_opera.Base.{
  String, ◌≡◌, ◌≢◌, refl, Bool, true, false, ◌||◌, ◌&&◌, List, [], ◌∷◌, str_eq, eq_iff, arith, All,
  Bool-cases, inl, inr, ◌∙◌, sym, All-imp,
}
use kubernetes_upgrade_opera.Batches.{Flags, flag, set_flag}
use kubernetes_upgrade_opera.Batches.Flagged.{flag-set_flag}
use kubernetes_upgrade_opera.Batches.Selection.{eligible}
use kubernetes_upgrade_opera.Types.{NodeProgress}
use kubernetes_upgrade_opera.NodeGroup.Progress.{is_active, active_batch, done_flags, active_flags}
use kubernetes_upgrade_opera.NodeGroup.Progress.Changes.{entry_names, Distinct}
use kubernetes_upgrade_opera.NodeGroup.Progress.Counts.{is_completed}

-- Some completed entry has the name.
unfoldable pub is_done : List NodeProgress → String → Bool
is_done [] name = false
is_done (np ∷ progress) name = (is_completed np && str_eq np.name name) || is_done progress name

flag-done_flags :
    (progress : List NodeProgress) (m : Flags) (n : String)
    → flag (done_flags progress m) n ≡ (flag m n || is_done progress n)
unfolding done_flags is_done is_completed
flag-done_flags [] m n = ground arith
flag-done_flags (np ∷ progress) m n = ground (
  arith,
  flag-done_flags progress m n,
  flag-done_flags progress (set_flag m np.name) n,
  flag-set_flag m np.name n,
)

-- Without an active entry nothing is in progress.
pub active_flags-idle :
    (progress : List NodeProgress) (m : Flags)
    → active_batch progress ≡ []
    → active_flags progress m ≡ m
unfolding active_flags active_batch
active_flags-idle [] m h = refl
active_flags-idle (np ∷ progress) m h = elim (Bool-cases (is_active np)) [
  | inl active ↦ cc (rw active at h)
  | inr idle ↦ rw idle (active_flags-idle progress m (rw idle at h))
]

none_eligible :
    (done : Flags) (nodes : List String)
    → eligible done [] nodes ≡ []
    → All (λ n. flag done n ≡ true) nodes
unfolding eligible flag
none_eligible done [] h = tt
none_eligible done (n ∷ nodes) h = elim (Bool-cases (flag done n)) [
  | inl yes_done ↦ (yes_done, none_eligible done nodes (ground arith))
  | inr open_node ↦ absurd (ground arith)
]

is_done-absent :
    (progress : List NodeProgress) (name : String)
    → All (λ m. name ≢ m) (entry_names progress)
    → is_done progress name ≡ false
unfolding is_done
is_done-absent [] name all = refl
is_done-absent (np ∷ progress) name all = ground (
  arith,
  eq_iff np.name name,
  is_done-absent progress name all.1,
  all.0,
  λ (e : np.name ≡ name). all.0 (sym e),
)

-- names of the tail are done by entries of the tail
tail_done :
    (np : NodeProgress) (progress : List NodeProgress) (names : List String)
    → All (λ m. np.name ≢ m) names
    → All (λ n. is_done (np ∷ progress) n ≡ true) names
    → All (λ n. is_done progress n ≡ true) names
unfolding is_done
tail_done np progress [] differ done = tt
tail_done np progress (n ∷ names) differ done = (
  ground (arith, eq_iff np.name n, differ.0, done.0),
  tail_done np progress names differ.1 done.1,
)

all_completed :
    (progress : List NodeProgress)
    → Distinct (entry_names progress)
    → All (λ n. is_done progress n ≡ true) (entry_names progress)
    → All (λ np. is_completed np ≡ true) progress
all_completed [] d done = tt
all_completed (np ∷ progress) d done = (
  unfold is_done in ground (arith, done.0, is_done-absent progress np.name d.0),
  all_completed progress d.1 (tail_done np progress (entry_names progress) d.0 done.1),
)

-- Where no node is eligible and none active, every entry is completed.
pub none_left :
    (progress : List NodeProgress)
    → Distinct (entry_names progress)
    → eligible (done_flags progress []) [] (entry_names progress) ≡ []
    → All (λ np. is_completed np ≡ true) progress
unfolding flag
none_left progress d h = all_completed progress d (
    All-imp (λ n e. sym (flag-done_flags progress [] n) ∙ e) (entry_names progress)
      (none_eligible (done_flags progress []) (entry_names progress) h))
