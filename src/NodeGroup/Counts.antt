-- ===== src/NodeGroup/Counts.antt =====
-- internal/controller/metrics_helpers.go: the number of a group's nodes in each phase.
pub mod Laws
use kubernetes_upgrade_opera.Base.{
  ℤ, pos, ◌+ℤ◌, int32, String, Option, none, some, List, [], ◌∷◌, if◌then◌else◌, str_eq,
}
use kubernetes_upgrade_opera.Types.{
  NodeStage, waiting, draining, drained, upgrading, upgraded, failed, ready, NodeProgress,
}

-- map[string]int32, without repeated keys
abbrev pub Counts : Type 0
Counts = List (String × ℤ)

-- v, ok := counts[k]
unfoldable pub count_at : String → Counts → Option ℤ
count_at k [] = none
count_at k ((j, v) ∷ counts) = let rest = count_at k counts in if str_eq j k then some v else rest

-- counts[k] = v
unfoldable pub put_count : String → ℤ → Counts → Counts
put_count k v [] = (k, v) ∷ []
put_count k v ((j, w) ∷ counts) =
    let rest = put_count k v counts in if str_eq j k then (j, v) ∷ counts else (j, w) ∷ rest

abbrev pub or_zero : Option ℤ → ℤ
or_zero none = pos 0
or_zero (some v) = v

-- counts[k]++
unfoldable pub add_one : String → Counts → Counts
unfolding put_count count_at
add_one k counts = put_count k (int32 (or_zero (count_at k counts) +ℤ pos 1)) counts

-- the text of NodeProgress.Phase
abbrev pub stage_text : NodeStage → String
stage_text waiting = ""
stage_text draining = "Draining"
stage_text drained = "Drained"
stage_text upgrading = "Upgrading"
stage_text upgraded = "Upgraded"
stage_text failed = "Failed"
stage_text ready = "Ready"

-- the phase that a node is counted under
unfoldable pub counted_phase : NodeProgress → String
counted_phase np = let phase = stage_text np.phase in if str_eq phase "" then "Pending" else phase

-- the first loop
unfoldable pub zero_each : List NodeProgress → Counts → Counts
unfolding put_count
zero_each [] counts = counts
zero_each (np ∷ progress) counts = zero_each progress (put_count (counted_phase np) (pos 0) counts)

-- the second loop
unfoldable pub count_each : List NodeProgress → Counts → Counts
unfolding add_one
count_each [] counts = counts
count_each (np ∷ progress) counts = count_each progress (add_one (counted_phase np) counts)

unfoldable pub node_group_phase_counts : List NodeProgress → Counts
unfolding zero_each count_each
node_group_phase_counts progress = count_each progress (zero_each progress [])
