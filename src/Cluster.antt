-- ===== src/Cluster.antt =====
-- How the controllers act on the cluster: each call to the API server (or another service) is put on
-- a history, and an environment gives its answer from the history so far.
--
-- `Env` is a parameter. Nothing is assumed of how its answers hang together, so a theorem about every
-- `Env` covers concurrent changes by other clients, conflicts, failures and retries.
pub mod Rules
use mathlib.Core.Path.{◌≡◌, refl}
use kubernetes_upgrade_opera.Base.{ℤ, String, Bool, Option, none, some, List, ◌∷◌}
use kubernetes_upgrade_opera.Result.{ApiError, Error, api, Result, ok, err, context}
use kubernetes_upgrade_opera.Core.{Time, Node, Pod, Lease, Job}
use kubernetes_upgrade_opera.Batches.{Scaled}
use kubernetes_upgrade_opera.Types.{Condition, NodeGroupUpgrade, KubernetesUpgrade}

-- The calls that only the cluster upgrade controller makes. The lease is the one of its fixed name in
-- the operator's namespace.
pub data UpgradeCall : Type 0 where
  list_nodes : UpgradeCall
  ask_version : UpgradeCall
  get_lease : UpgradeCall
  create_lease : Lease → UpgradeCall
  update_lease : Lease → UpgradeCall
  delete_lease : UpgradeCall
  -- a node group, by its namespace and name
  get_group : String → String → UpgradeCall
  -- the node groups of a namespace with a parent
  list_groups : String → String → UpgradeCall
  -- the server-side apply of a group, and the patch that sets spec.hold to false
  apply_group : NodeGroupUpgrade → UpgradeCall
  release_group : NodeGroupUpgrade → UpgradeCall
  delete_group : NodeGroupUpgrade → UpgradeCall
  update_upgrade : KubernetesUpgrade → UpgradeCall
  update_upgrade_status : KubernetesUpgrade → UpgradeCall

-- The calls that the kubeadm adapter makes for itself.
pub data ExecutorCall : Type 0 where
  -- the nodes with a label
  list_labelled : String → ExecutorCall
  list_etcd_pods : ExecutorCall
  -- the requests to the API servers of these URLs
  ask_healthz : List String → ExecutorCall
  get_job : String → ExecutorCall
  create_job : Job → ExecutorCall
  delete_job : String → ExecutorCall

-- The calls that a controller makes, or has an adapter make.
pub data Call : Type 0 where
  get_node : String → Call
  patch_unschedulable : String → Bool → Call
  list_pods : String → Call
  evict : Pod → Call
  delete_pod : String → String → Call
  update_status : NodeGroupUpgrade → Call
  read_clock : Call
  record_event : String → Call
  -- the four operations of an adapter, before what they do themselves
  adapter_precheck : Call
  adapter_begin : List String → Call
  adapter_poll : List String → Call
  adapter_verify : Call
  delete_node : String → Call
  -- any other call that an adapter makes for itself
  adapter_call : String → Call
  upgrade_call : UpgradeCall → Call
  executor_call : ExecutorCall → Call

-- The newest call first.
abbrev pub History : Type 0
History = List Call

-- What a read answers.
pub data Answer (A : Type 0) : Type 0 where
  found : A → Answer A
  refused : ApiError → Answer A

pub record Env : Type 0 where
  pub node_at : History → String → Answer Node
  pub pods_at : History → String → Answer (List Pod)
  -- a write answers `none`, or its error
  pub patch_reply : History → String → Bool → Option ApiError
  pub evict_reply : History → Pod → Option ApiError
  pub delete_reply : History → String → String → Option ApiError
  pub delete_node_reply : History → String → Option ApiError
  pub status_reply : History → NodeGroupUpgrade → Option ApiError
  pub clock : History → Time
  -- meta.SetStatusCondition: the new conditions, and whether they changed
  pub set_condition : List Condition → Condition → List Condition × Bool
  -- intstr.GetScaledValueFromIntOrPercent, rounding down
  pub scaled : Scaled

-- A handler: what it returns, and the history behind it. Calls made before an error stay made.
abbrev pub Run : Type 0 → Type 0
Run A = History → Result A × History

unfoldable pub pure : {A : Type 0} → A → Run A
pure a h = (ok a, h)

unfoldable pub raise : {A : Type 0} → Error → Run A
raise e h = (err e, h)

unfoldable pub lift : {A : Type 0} → Result A → Run A
lift r h = (r, h)

abbrev pub continue : {A B : Type 0} → Result A → (A → Run B) → Run B
continue (ok a) f h = f a h
continue (err e) f h = (err e, h)

infixl 5 ◌>>=◌ ◌>>◌
unfoldable pub ◌>>=◌ : {A B : Type 0} → Run A → (A → Run B) → Run B
unfolding pure raise lift
◌>>=◌ m f h = let (r, h') = m h in continue r f h'

abbrev pub ◌>>◌ : {B : Type 0} → Run (Unit {0}) → Run B → Run B
m >> k = m >>= λ _. k

-- Go code that looks at an error itself: the error becomes a value.
unfoldable pub attempt : {A : Type 0} → Run A → Run (Result A)
attempt m h = let (r, h') = m h in (ok r, h')

-- `if err != nil { return fmt.Errorf("…: %w", err) }`
unfoldable pub in_context : {A : Type 0} → String → Run A → Run A
in_context w m h = let (r, h') = m h in (context w r, h')

abbrev pub of_answer : {A : Type 0} → Answer A → Result A
of_answer (found a) = ok a
of_answer (refused e) = err (api e)

abbrev pub of_reply : Option ApiError → Result (Unit {0})
of_reply none = ok tt
of_reply (some e) = err (api e)

module _ (env : Env) where
  unfoldable pub read_node : String → Run Node
  read_node name h = (of_answer (env.node_at h name), get_node name ∷ h)

  unfoldable pub read_pods : String → Run (List Pod)
  read_pods node h = (of_answer (env.pods_at h node), list_pods node ∷ h)

  unfoldable pub write_unschedulable : String → Bool → Run (Unit {0})
  write_unschedulable name b h =
      (of_reply (env.patch_reply h name b), patch_unschedulable name b ∷ h)

  unfoldable pub create_eviction : Pod → Run (Option ApiError)
  create_eviction pod h = (ok (env.evict_reply h pod), evict pod ∷ h)

  unfoldable pub remove_pod : String → String → Run (Option ApiError)
  remove_pod namespace name h =
      (ok (env.delete_reply h namespace name), delete_pod namespace name ∷ h)

  unfoldable pub remove_node : String → Run (Option ApiError)
  remove_node name h = (ok (env.delete_node_reply h name), delete_node name ∷ h)

  -- r.Status().Update(ctx, ng)
  unfoldable pub write_status : NodeGroupUpgrade → Run (Unit {0})
  write_status ng h = (of_reply (env.status_reply h ng), update_status ng ∷ h)

  -- metav1.Now(), time.Now()
  unfoldable pub now : Run Time
  now h = (ok (env.clock h), read_clock ∷ h)

unfoldable pub note : Call → Run (Unit {0})
note c h = (ok tt, c ∷ h)
