-- ===== src/Adapter/Generic.antt =====
-- pkg/provider/generic/adapter.go: nodes that no cloud API replaces.
--
-- Its in-place half is the adapter of pkg/provider/kubeadm, here a parameter `in_place_adapter`.
pub mod Laws
use kubernetes_upgrade_opera.Base.{
  String, Bool, true, ◌||◌, Option, none, some, List, [], ◌∷◌, if◌then◌else◌,
}
use kubernetes_upgrade_opera.Result.{
  ApiError, not_found, already_exists, conflict, too_many_requests, other, Error, api, wrapped,
  Result, ok, err,
}
use kubernetes_upgrade_opera.Core.{Node}
use kubernetes_upgrade_opera.Types.{generic, in_place, replace, NodeGroupUpgrade}
use kubernetes_upgrade_opera.Cluster.{Env, Run, pure, raise, attempt, read_node, remove_node, ◌>>=◌}
use kubernetes_upgrade_opera.Drain.{join}
use kubernetes_upgrade_opera.Adapter.{NodePhase, NodeResult, Adapter, same_strategy}

abbrev is_in_place : NodeGroupUpgrade → Bool
is_in_place ng = same_strategy ng.spec.strategy in_place

-- the error that deleting a node adds to `errs`
abbrev delete_error : Option ApiError → Option Error
delete_error none = none
delete_error (some not_found) = none
delete_error (some already_exists) = some (wrapped "deleting node" (api already_exists))
delete_error (some conflict) = some (wrapped "deleting node" (api conflict))
delete_error (some too_many_requests) = some (wrapped "deleting node" (api too_many_requests))
delete_error (some other) = some (wrapped "deleting node" (api other))

module _ (env : Env) where
  -- the loop of beginReplaceBatch: every node is deleted, and the errors are kept
  unfoldable pub delete_all : List Node → Run (Option Error)
  delete_all [] = pure none
  delete_all (node ∷ batch) = do
    reply ← remove_node env node.name
    rest ← delete_all batch
    pure (join (delete_error reply) rest)

  or_raise : Option Error → Run (Unit {0})
  or_raise none = pure tt
  or_raise (some e) = raise e

  unfoldable pub begin_replace_batch : List Node → Run (Unit {0})
  unfolding delete_all or_raise
  begin_replace_batch batch = do errs ← delete_all batch; or_raise errs

  -- one node of pollReplaceBatch, by what looking it up returned
  looked_up : Node → Result Node → Run NodeResult
  looked_up node (ok current) =
      pure (record { node_name = node.name; phase = NodePhase.in_progress; error = none })
  looked_up node (err (api not_found)) =
      pure (record { node_name = node.name; phase = NodePhase.upgraded; error = none })
  looked_up node (err e) = raise (wrapped "getting node" e)

  unfoldable pub poll_replace_batch : List Node → Run (List NodeResult)
  unfolding looked_up
  poll_replace_batch [] = pure []
  poll_replace_batch (node ∷ batch) = do
    current ← attempt (read_node env node.name)
    one ← looked_up node current
    rest ← poll_replace_batch batch
    pure (one ∷ rest)

  unfoldable pub generic_adapter : Adapter → Adapter
  unfolding begin_replace_batch poll_replace_batch
  generic_adapter in_place_adapter = record {
    kind = generic;
    supports_strategy = λ s. same_strategy s in_place || same_strategy s replace;
    precheck = λ ng. if is_in_place ng then in_place_adapter.precheck ng else pure (true, "");
    begin_batch = λ ng batch.
        if is_in_place ng then in_place_adapter.begin_batch ng batch else begin_replace_batch batch;
    poll_batch = λ ng batch.
        if is_in_place ng then in_place_adapter.poll_batch ng batch else poll_replace_batch batch;
    verify = λ ng. if is_in_place ng then in_place_adapter.verify ng else pure (true, "");
  }
