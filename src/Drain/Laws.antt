-- ===== src/Drain/Laws.antt =====
-- What one drain pass of pkg/k8sutil/drain.go does to the pods of a node, and what it reports.
use kubernetes_upgrade_opera.Base.{String, ◌≡◌, refl, Option, none, some, List, [], ◌∷◌}
use kubernetes_upgrade_opera.Result.{Result, ok, err}
use kubernetes_upgrade_opera.Core.{Pod}
use kubernetes_upgrade_opera.Cluster.{Call, list_pods, evict, Env}
use kubernetes_upgrade_opera.Cluster.Rules.{
  Post, Any, Ensures, Ensures-pure, Ensures-lift, Ensures-in_context, Ensures-bind,
  Ensures-read_pods, Ensures-create_eviction,
}
use kubernetes_upgrade_opera.Drain.{
  DrainOptions, DrainState, settled, drain_pod, drain_pods, drain_node,
}

post-Any : {A : Type 0} (r : Result A) → Post Any r
post-Any (ok a) = tt
post-Any (err e) = tt

module _ {C : Call → Type 0} (env : Env) (opts : DrainOptions) where
  drain_pod-calls :
      (pod : Pod) (state : Option DrainState)
      → (state ≡ none → C (evict pod))
      → Ensures C (drain_pod env opts pod state) Any
  unfolding drain_pod
  drain_pod-calls pod (some state) k = Ensures-pure _ tt
  drain_pod-calls pod none k =
      Ensures-bind _ _ (Ensures-create_eviction env pod (k refl)) (λ reply _. Ensures-pure _ tt)

  drain_pods-calls :
      (pods : List Pod)
      → ((pod : Pod) → settled opts pod ≡ none → C (evict pod))
      → Ensures C (drain_pods env opts pods) Any
  unfolding drain_pods
  drain_pods-calls [] k = Ensures-pure _ tt
  drain_pods-calls (pod ∷ pods) k =
      Ensures-bind _ _ (drain_pod-calls pod (settled opts pod) (k pod))
        (λ one _. Ensures-bind _ _ (drain_pods-calls pods k) (λ rest _. Ensures-pure _ tt))

  -- A drain pass lists the node's pods and evicts only pods that none of its guards settles.
  pub drain_node-calls :
      (name : String)
      → C (list_pods name)
      → ((pod : Pod) → settled opts pod ≡ none → C (evict pod))
      → Ensures C (drain_node env opts name) Any
  unfolding drain_node
  drain_node-calls name listed k =
      Ensures-bind _ _ (Ensures-in_context _ _ (Ensures-read_pods env name listed)) (λ pods _.
        Ensures-bind _ _ (drain_pods-calls pods k) (λ result _. Ensures-lift _ (post-Any _)))
