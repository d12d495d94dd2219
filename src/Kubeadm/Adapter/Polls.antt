-- ===== src/Kubeadm/Adapter/Polls.antt =====
-- What polling a batch reports.
use kubernetes_upgrade_opera.Result.{job_failed}
use kubernetes_upgrade_opera.Base.{
  String, str_eq, Bool, true, false, none, some, List, [], ◌∷◌, ◌≡◌, refl, ◌⊎◌, inl, inr,
  if◌then◌else◌,
}
use kubernetes_upgrade_opera.Result.{not_found, already_exists, conflict, too_many_requests, other}
use kubernetes_upgrade_opera.Core.{JobCondition, Node}
use kubernetes_upgrade_opera.NodeState.{status_is_true}
use kubernetes_upgrade_opera.Adapter.{NodePhase, NodeResult}
use kubernetes_upgrade_opera.Cluster.{
  Call, ExecutorCall, executor_call, History, Answer, found, refused,
}
use kubernetes_upgrade_opera.Cluster.Rules.{
  Any, Post, Ensures, Ensures-pure, Ensures-raise, Ensures-bind, Any-calls,
}
use kubernetes_upgrade_opera.Kubeadm.Calls.{ExecutorEnv}
use kubernetes_upgrade_opera.Kubeadm.Calls.Rules.{Ensures-read_job}
use kubernetes_upgrade_opera.Kubeadm.Executor.{job_name_for}
use kubernetes_upgrade_opera.Kubeadm.EtcdQuorum.{
  JobState, running, complete, failed, job_condition_state,
}
use kubernetes_upgrade_opera.Kubeadm.Adapter.{job_result, poll_node, poll_nodes}

-- The state in which a poll finds a Job, and the phase that it reports.
abbrev phase_of : JobState → NodePhase
phase_of running = NodePhase.in_progress
phase_of complete = NodePhase.upgraded
phase_of failed = NodePhase.failed

-- What a poll says of one node: the phase of its Job, or that it failed where there is none.
abbrev PolledJob : ExecutorEnv → String → Node → NodeResult → Type 0
PolledJob env target node res =
    (res.node_name ≡ node.name)
    × (((conditions : List JobCondition) × (h : History) × (env.job_at h
              (job_name_for env node.name target)
            ≡ found conditions)
          × (res.phase ≡ phase_of (job_condition_state conditions)))
        ⊎ ((res.phase ≡ NodePhase.failed)
            × ((h : History) × (env.job_at h (job_name_for env node.name target)
                  ≡ refused not_found))))

abbrev pub AllPolled : ExecutorEnv → String → List Node → List NodeResult → Type 0
AllPolled env target [] [] = Unit
AllPolled env target (node ∷ batch) (res ∷ results) =
    PolledJob env target node res × AllPolled env target batch results
AllPolled env target [] (res ∷ results) = ⊥
AllPolled env target (node ∷ batch) [] = ⊥

-- One condition of a Job, by whether it is true and which type it has.
one_condition :
    (name : String) (holds is_complete is_failed : Bool) (rest : NodeResult) (state : JobState)
    → (rest.node_name ≡ name) × (rest.phase ≡ phase_of state)
    → ((if holds
          then if is_complete
            then record { node_name = name; phase = NodePhase.upgraded; error = none }
            else if is_failed
            then record {
              node_name = name;
              phase = NodePhase.failed;
              error = some (job_failed name);
            }
            else rest
          else rest).node_name
        ≡ name)
      × ((if holds
            then if is_complete
              then record { node_name = name; phase = NodePhase.upgraded; error = none }
              else if is_failed
              then record {
                node_name = name;
                phase = NodePhase.failed;
                error = some (job_failed name);
              }
              else rest
            else rest).phase
          ≡ phase_of (
              if holds
              then if is_complete then complete else if is_failed then failed else state
              else state))
one_condition name true true is_failed rest state same = (refl, refl)
one_condition name true false true rest state same = (refl, refl)
one_condition name true false false rest state same = same
one_condition name false is_complete is_failed rest state same = same

-- jobResult and jobConditionState agree.
job_result-phase :
    (name : String) (conditions : List JobCondition)
    → ((job_result name conditions).node_name ≡ name)
      × ((job_result name conditions).phase ≡ phase_of (job_condition_state conditions))
unfolding job_result job_condition_state
job_result-phase name [] = (refl, refl)
job_result-phase name (c ∷ conditions) =
    one_condition name (status_is_true c.status) (str_eq c.kind "Complete") (str_eq c.kind "Failed")
      _ _ (job_result-phase name conditions)

module _ {C : Call → Type 0} (env : ExecutorEnv)
    (jobs : (c : ExecutorCall) → C (executor_call c)) where
  poll_node-PolledJob :
      (target : String) (node : Node) (a : Answer (List JobCondition))
      → (h : History) × (env.job_at h (job_name_for env node.name target) ≡ a)
      → Ensures C (poll_node env node a) (PolledJob env target node)
  unfolding poll_node
  poll_node-PolledJob target node (refused not_found) read = Ensures-pure _ (refl, inr (refl, read))
  poll_node-PolledJob target node (refused already_exists) read = Ensures-raise _
  poll_node-PolledJob target node (refused conflict) read = Ensures-raise _
  poll_node-PolledJob target node (refused too_many_requests) read = Ensures-raise _
  poll_node-PolledJob target node (refused other) read = Ensures-raise _
  poll_node-PolledJob target node (found conditions) (h, e) =
      let (named, phase) = job_result-phase node.name conditions in
      Ensures-pure _ (named, inl (conditions, h, e, phase))

  pub poll_nodes-PolledJob :
      (target : String) (batch : List Node)
      → Ensures C (poll_nodes env target batch) (AllPolled env target batch)
  unfolding poll_nodes
  poll_nodes-PolledJob target [] = Ensures-pure _ tt
  poll_nodes-PolledJob target (node ∷ batch) =
      Ensures-bind _ _ (Ensures-read_job env _ (jobs _)) (λ job read.
        Ensures-bind _ _ (poll_node-PolledJob target node job read) (λ one k.
          Ensures-bind _ _ (poll_nodes-PolledJob target batch) (λ rest l. Ensures-pure _ (k, l))))

-- Whatever the cluster answers: where polling a batch returns results, there is one for each node of
-- the batch, in order; it names the node, and its phase is that of the node's Job for the target
-- version, running, Complete or Failed by its first such condition that is true, and failed where the
-- Job was not found.
pub poll_nodes-AllPolled :
    (env : ExecutorEnv) (target : String) (batch : List Node) (h : History)
    → Post (AllPolled env target batch) (poll_nodes env target batch h).0
poll_nodes-AllPolled env target batch h =
    ((poll_nodes-PolledJob {C = Any} env (λ c. tt) target batch).at h (Any-calls h)).1
