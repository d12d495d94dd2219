-- ===== src/NodeGroup/Progress.antt =====
-- The helpers over NodeProgress of nodegroupupgrade_controller.go, nodegroupupgrade_draining.go and
-- nodegroupupgrade_upgrading.go.
pub mod Changes
pub mod Counts
pub mod Completion
pub mod Marks
use kubernetes_upgrade_opera.Base.{
  ℕ, zero, suc, ℤ, pos, String, Bool, true, false, not, ◌&&◌, Option, none, some, List, [], ◌∷◌,
  if◌then◌else◌, str_eq,
}
use kubernetes_upgrade_opera.Result.{Result}
use kubernetes_upgrade_opera.Core.{Time}
use kubernetes_upgrade_opera.Batches.{Scaled, Flags, set_flag, next_batch}
use kubernetes_upgrade_opera.Types
use kubernetes_upgrade_opera.Types.{
  empty, NodeStage, NodeProgress, NodeGroupUpgrade, GroupPhase, Message,
}

-- `np.StartedAt != nil && np.CompletedAt == nil`
unfoldable pub is_set : Option Time → Bool
is_set none = false
is_set (some t) = true

unfoldable pub is_active : NodeProgress → Bool
unfolding is_set
is_active np = is_set np.started_at && not (is_set np.completed_at)

unfoldable pub active_batch : List NodeProgress → List String
unfolding is_active
active_batch [] = []
active_batch (np ∷ progress) =
    let rest = active_batch progress in if is_active np then np.name ∷ rest else rest

-- The index of the first entry with the name; `none` is -1.
unfoldable pub find_node_progress : List NodeProgress → String → Option ℕ
find_node_progress [] name = none
find_node_progress (np ∷ progress) name =
    if str_eq np.name name
    then some 0
    else elim (find_node_progress progress name) [ none ↦ none | some i ↦ some (suc i) ]

-- progress[i], for an index that was found
unfoldable pub change_at : List NodeProgress → ℕ → (NodeProgress → NodeProgress) → List NodeProgress
change_at [] i f = []
change_at (np ∷ progress) zero f = f np ∷ progress
change_at (np ∷ progress) (suc i) f = np ∷ change_at progress i f

-- `if idx := findNodeProgress(progress, name); idx != -1 { progress[idx]… }`
unfoldable pub change_named :
    String → (NodeProgress → NodeProgress) → List NodeProgress → List NodeProgress
unfolding find_node_progress change_at
change_named name f progress = elim (find_node_progress progress name) [
  | none ↦ progress
  | some i ↦ change_at progress i f
]

-- The entry with the name, if there is one.
unfoldable pub entry : List NodeProgress → String → Option NodeProgress
entry [] name = none
entry (np ∷ progress) name = if str_eq np.name name then some np else entry progress name

abbrev pub with_stage : NodeStage → NodeProgress → NodeProgress
with_stage stage np = record np { phase = stage }

abbrev pub with_progress : NodeGroupUpgrade → List NodeProgress → NodeGroupUpgrade
with_progress ng progress = record ng { status = record ng.status { node_progress = progress } }

abbrev pub with_phase : NodeGroupUpgrade → GroupPhase → NodeGroupUpgrade
with_phase ng phase = record ng { status = record ng.status { phase = phase } }

abbrev pub with_message : NodeGroupUpgrade → Message → NodeGroupUpgrade
with_message ng message = record ng { status = record ng.status { message = message } }

-- initNodeProgress
unfoldable pub init_node_progress : List String → String → List NodeProgress
init_node_progress [] target = []
init_node_progress (n ∷ nodes) target =
    record {
      name = n;
      phase = NodeStage.waiting;
      from_version = "";
      to_version = target;
      error = empty;
      started_at = none;
      completed_at = none;
    }
    ∷ init_node_progress nodes target

-- The two maps that nextBatchFor fills.
unfoldable pub done_flags : List NodeProgress → Flags → Flags
unfolding is_set set_flag
done_flags [] m = m
done_flags (np ∷ progress) m =
    done_flags progress (if is_set np.completed_at then set_flag m np.name else m)

unfoldable pub active_flags : List NodeProgress → Flags → Flags
unfolding is_active set_flag
active_flags [] m = m
active_flags (np ∷ progress) m =
    active_flags progress (if is_active np then set_flag m np.name else m)

unfoldable pub next_batch_for : Scaled → NodeGroupUpgrade → Result (List String)
unfolding done_flags active_flags
next_batch_for scaled ng =
    next_batch scaled ng.spec.nodes (done_flags ng.status.node_progress [])
      (active_flags ng.status.node_progress []) ng.spec.batch_size ng.spec.max_unavailable

abbrev begun : NodeStage → Bool
begun NodeStage.upgrading = true
begun NodeStage.upgraded = true
begun _ = false

-- needsBegin: some active node is neither Upgrading nor Upgraded.
unfoldable pub needs_begin : List NodeProgress → List String → Bool
unfolding entry
needs_begin progress [] = false
needs_begin progress (name ∷ active) =
    let rest = needs_begin progress active in
    elim (entry progress name) [ none ↦ rest | some np ↦ if begun np.phase then rest else true ]
