-- ===== src/Adapter/Generic/Laws.antt =====
-- What the generic adapter does to the cluster, and what it reports of a replaced node.
use kubernetes_upgrade_opera.Base.{
  String, ◌≡◌, refl, sym, ◌⊎◌, inl, inr, Option, none, some, List, [], ◌∷◌,
}
use kubernetes_upgrade_opera.Result.{not_found, Error, api, Result, ok, err}
use kubernetes_upgrade_opera.Core.{Node}
use kubernetes_upgrade_opera.Batches.{Scaled}
use kubernetes_upgrade_opera.Types.{NodeGroupUpgradeSpec}
use kubernetes_upgrade_opera.Cluster.{
  Call, get_node, Env, History, Answer, found, refused, attempt, read_node, of_answer,
}
use kubernetes_upgrade_opera.Cluster.Rules.{
  Post, Any, Ensures, Ensures-pure, Ensures-raise, Ensures-if, Ensures-bind, Ensures-weaken,
  Ensures-remove_node, Any-calls,
}
use kubernetes_upgrade_opera.NodeGroup.Invariant.{Writes}
use kubernetes_upgrade_opera.Adapter.{NodePhase, NodeResult, Adapter}
use kubernetes_upgrade_opera.Adapter.Quiet.{Quiet}
use kubernetes_upgrade_opera.Adapter.Generic.{
  is_in_place, delete_all, or_raise, begin_replace_batch, looked_up, poll_replace_batch,
  generic_adapter,
}

module _ (env : Env) where
  delete_all-Writes :
      (scaled : Scaled) (spec : NodeGroupUpgradeSpec) (batch : List Node)
      → Ensures (Writes scaled spec) (delete_all env batch) Any
  unfolding delete_all
  delete_all-Writes scaled spec [] = Ensures-pure _ tt
  delete_all-Writes scaled spec (node ∷ batch) =
      Ensures-bind _ _ (Ensures-remove_node env node.name tt) (λ reply _.
        Ensures-bind _ _ (delete_all-Writes scaled spec batch) (λ rest _. Ensures-pure _ tt))

  or_raise-Writes :
      (scaled : Scaled) (spec : NodeGroupUpgradeSpec) (e : Option Error)
      → Ensures (Writes scaled spec) (or_raise env e) Any
  unfolding or_raise
  or_raise-Writes scaled spec none = Ensures-pure _ tt
  or_raise-Writes scaled spec (some e) = Ensures-raise _

  -- What a poll says of one node: it is reported as upgraded only where looking it up answered
  -- NotFound.
  abbrev Reported : Node → NodeResult → Type 0
  Reported node res =
      (res.node_name ≡ node.name)
      × ((res.phase ≡ NodePhase.in_progress)
          ⊎ ((res.phase ≡ NodePhase.upgraded)
              × (h : History) × (env.node_at h node.name ≡ refused not_found)))

  -- One result for each node, in order.
  abbrev pub AllReported : List Node → List NodeResult → Type 0
  AllReported [] [] = Unit
  AllReported (node ∷ batch) (res ∷ results) = Reported node res × AllReported batch results
  AllReported [] (res ∷ results) = ⊥
  AllReported (node ∷ batch) [] = ⊥

  -- What looking a node up told.
  abbrev Told : Node → Result Node → Type 0
  Told node r = (h : History) × (of_answer (env.node_at h node.name) ≡ r)

  answered :
      (node : Node) (h : History) (answer : Answer Node)
      → env.node_at h node.name ≡ answer
      → of_answer answer ≡ err (api not_found)
      → env.node_at h node.name ≡ refused not_found
  answered node h (found n) e f = absurd cc
  answered node h (refused x) e f = cc

  module _ {C : Call → Type 0} where
    looked_up-Reported :
        (node : Node) (r : Result Node)
        → Told node r
        → Ensures C (looked_up env node r) (Reported node)
    unfolding looked_up
    looked_up-Reported node (ok current) told = Ensures-pure _ (refl, inl refl)
    looked_up-Reported node (err (api not_found)) (h, e) =
        Ensures-pure _ (refl, inr (refl, h, answered node h (env.node_at h node.name) refl e))
    looked_up-Reported node (err e) told = Ensures-raise _

  poll_replace_batch-Reported :
      (C : Call → Type 0)
      → ((name : String) → C (get_node name))
      → (batch : List Node) → Ensures C (poll_replace_batch env batch) (AllReported batch)
  unfolding poll_replace_batch
  poll_replace_batch-Reported C k [] = Ensures-pure _ tt
  poll_replace_batch-Reported C reads (node ∷ batch) =
      Ensures-bind {P = Told node} _ _
        (unfold attempt read_node in record { at = λ h all. ((reads node.name, all), (h, refl)) })
        (λ r told. Ensures-bind _ _ (looked_up-Reported node r told) (λ one k.
          Ensures-bind _ _ (poll_replace_batch-Reported C reads batch)
            (λ rest l. Ensures-pure _ (k, l))))

  -- The generic adapter writes no status of its own: where the in-place adapter keeps the group's
  -- invariant in all that it writes, so does the generic one.
  pub generic_adapter-Quiet :
      (scaled : Scaled) (spec : NodeGroupUpgradeSpec) (in_place_adapter : Adapter)
      → Quiet (Writes scaled spec) in_place_adapter
      → Quiet (Writes scaled spec) (generic_adapter env in_place_adapter)
  unfolding generic_adapter begin_replace_batch
  generic_adapter-Quiet scaled spec in_place_adapter quiet = record {
    precheck = λ ng. Ensures-if (is_in_place ng) _ _ (quiet.precheck ng) (Ensures-pure _ tt);
    begin_batch = λ ng batch. Ensures-if (is_in_place ng) _ _ (quiet.begin_batch ng batch) (
        Ensures-bind _ _ (delete_all-Writes scaled spec batch)
          (λ errs _. or_raise-Writes scaled spec errs));
    poll_batch = λ ng batch. Ensures-if (is_in_place ng) _ _ (quiet.poll_batch ng batch) (
        Ensures-weaken _ (λ results _. tt)
          (poll_replace_batch-Reported (Writes scaled spec) (λ name. tt) batch));
    verify = λ ng. Ensures-if (is_in_place ng) _ _ (quiet.verify ng) (Ensures-pure _ tt);
  }

same : {r s : List NodeResult} → ok r ≡ ok s → r ≡ s
same e = cc

-- Whatever the cluster answers: where polling a batch of replaced nodes returns results, there is one
-- for each node of the batch, in order; it names the node, and it says upgraded only where looking
-- the node up was answered with NotFound, and in progress otherwise.
pub poll_replace_batch-AllReported :
    (env : Env) (batch : List Node) (h : History) (results : List NodeResult)
    → (poll_replace_batch env batch h).0 ≡ ok results
    → AllReported env batch results
poll_replace_batch-AllReported env batch h results e =
    go (poll_replace_batch env batch h).0
      (((poll_replace_batch-Reported env Any (λ name. tt) batch).at h (Any-calls h)).1) e
  where
    go :
        (r : Result (List NodeResult))
        → Post (AllReported env batch) r
        → r ≡ ok results
        → AllReported env batch results
    go (ok told) q e = rw (sym (same e)) q
    go (err x) q e = absurd cc
