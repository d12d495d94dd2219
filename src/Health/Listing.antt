-- ===== src/Health/Listing.antt =====
-- pkg/k8sutil/health.go: listing the control plane's nodes, and the version that etcd runs.
--
-- The nodes are in the order in which their names first appear; Go ranges over its map in any order.
use Prim.Native.Char.{code}
use Prim.Native.String.{[] as end, ◌∷◌ as ◌then◌, ◌++◌}
use kubernetes_upgrade_opera.Base.{
  ℕ, ◌==◌, String, str_eq, Option, none, some, List, [], ◌∷◌, first_part, if◌then◌else◌,
}
use kubernetes_upgrade_opera.Result.{Error, no_etcd_version, Result, ok, err}
use kubernetes_upgrade_opera.Core.{Node, EtcdPod}
use kubernetes_upgrade_opera.Discovery.{control_plane_label_key, legacy_control_plane_label_key}
use kubernetes_upgrade_opera.Cluster.{Run, pure, lift, in_context, ◌>>=◌}
use kubernetes_upgrade_opera.Kubeadm.Calls.{
  ExecutorEnv, read_labelled, read_etcd_pods, read_healthz,
}
use kubernetes_upgrade_opera.Health.{
  EtcdQuorumStatus, ControlPlaneHealth, healthz_urls, check_etcd_quorum, control_plane_health,
}

-- seen[n.Name] = n
unfoldable pub put_named : Node → List Node → List Node
put_named node [] = node ∷ []
put_named node (n ∷ seen) =
    let rest = put_named node seen in if str_eq n.name node.name then node ∷ seen else n ∷ rest

unfoldable pub put_all : List Node → List Node → List Node
unfolding put_named
put_all [] seen = seen
put_all (node ∷ nodes) seen = put_all nodes (put_named node seen)

-- strings.Cut(s, sep), the part behind, for a separator of one character
unfoldable pub behind_cut : ℕ → String → Option String
behind_cut sep end = none
behind_cut sep (c then s) = if code c == sep then some s else behind_cut sep s

-- the version in the tag of an image
unfoldable pub version_of_image : String → Result String
unfolding behind_cut first_part
version_of_image image = elim (behind_cut 0x3a image) [
  | none ↦ err no_etcd_version
  | some tag ↦ ok ("v" ++ first_part 0x2d tag)
]

unfoldable pub version_of_pods : List EtcdPod → Result String
unfolding version_of_image
version_of_pods [] = err no_etcd_version
version_of_pods (pod ∷ pods) = elim pod.images [
  | [] ↦ err no_etcd_version
  | image ∷ images ↦ version_of_image image
]

module _ (env : ExecutorEnv) where
  unfoldable pub list_control_plane_nodes : Run (List Node)
  unfolding put_all
  list_control_plane_nodes = do
    current ← in_context "listing nodes labeled" (read_labelled env control_plane_label_key)
    legacy ← in_context "listing nodes labeled" (read_labelled env legacy_control_plane_label_key)
    pure (put_all legacy (put_all current []))

  unfoldable pub check_control_plane_health : Run ControlPlaneHealth
  unfolding list_control_plane_nodes control_plane_health
  check_control_plane_health = do
    nodes ← list_control_plane_nodes
    pure (control_plane_health nodes)

  abbrev transport_made : Option Error → Result (Unit {0})
  transport_made none = ok tt
  transport_made (some e) = err e

  unfoldable pub check_etcd_quorum_via_api_servers : List Node → Run EtcdQuorumStatus
  unfolding check_etcd_quorum healthz_urls
  check_etcd_quorum_via_api_servers nodes = do
    _ ←
        in_context "building transport for control-plane health checks"
          (lift (transport_made env.transport))
    answers_ok ← read_healthz env (healthz_urls nodes)
    pure (check_etcd_quorum answers_ok nodes)

  unfoldable pub get_running_etcd_version : Run String
  unfolding version_of_pods
  get_running_etcd_version = do
    pods ← in_context "listing etcd pods" (read_etcd_pods env)
    lift (version_of_pods pods)
