-- ===== src/Health.antt =====
-- pkg/k8sutil/health.go: whether a majority of the control plane is healthy, from nodes already listed.
--
-- The HTTP client is a parameter: whether a GET of a URL answers 200 OK. The nodes are listed in the
-- child module.
pub mod Listing
pub mod Majority
use Prim.Native.String.{◌++◌}
use kubernetes_upgrade_opera.Base.{
  ℕ, suc, ◌+◌, ◌/◌, leb, String, str_eq, Bool, true, false, List, [], ◌∷◌, length, decimal,
  if◌then◌else◌,
}
use kubernetes_upgrade_opera.Core.{Node, NodeAddress}
use kubernetes_upgrade_opera.NodeState.{is_node_ready}

pub record EtcdQuorumStatus : Type 0 where
  pub healthy : Bool
  pub total_members : ℕ
  pub healthy_members : ℕ
  pub reason : String

pub record ControlPlaneHealth : Type 0 where
  pub healthy : Bool
  pub total_nodes : ℕ
  pub ready_nodes : ℕ
  pub reason : String

-- `total/2 + 1`
abbrev pub quorum : ℕ → ℕ
quorum total = total / 2 + 1

-- fmt.Sprintf("only %d/%d … need at least %d …", n, total, quorum)
unfoldable pub shortfall : ℕ → ℕ → String → String → String
shortfall n total what behind =
    "only "
    ++ (decimal n ++ ("/" ++ (decimal total ++ (what ++ (decimal (quorum total) ++ behind)))))

-- the loop over the URLs
unfoldable pub count_healthy : (String → Bool) → List String → ℕ
count_healthy answers_ok [] = 0
count_healthy answers_ok (url ∷ urls) =
    let rest = count_healthy answers_ok urls in if answers_ok url then suc rest else rest

unfoldable pub check_etcd_healthz_endpoints : (String → Bool) → List String → EtcdQuorumStatus
unfolding count_healthy shortfall
check_etcd_healthz_endpoints answers_ok [] = record {
  healthy = true;
  total_members = 0;
  healthy_members = 0;
  reason = "no control-plane apiservers to check";
}
check_etcd_healthz_endpoints answers_ok (url ∷ urls) =
    let total = length (url ∷ urls) in
    let healthy = count_healthy answers_ok (url ∷ urls) in
    record {
      healthy = leb (quorum total) healthy;
      total_members = total;
      healthy_members = healthy;
      reason =
          if leb (quorum total) healthy
          then ""
          else shortfall healthy total
              " control-plane apiservers report etcd healthy, need at least " "";
    }

-- nodeInternalIP
unfoldable pub internal_ip : List NodeAddress → String
internal_ip [] = ""
internal_ip (a ∷ addresses) =
    if str_eq a.kind "InternalIP" then a.address else internal_ip addresses

unfoldable pub healthz_urls : List Node → List String
unfolding internal_ip
healthz_urls [] = []
healthz_urls (node ∷ nodes) =
    let rest = healthz_urls nodes in
    let ip = internal_ip node.addresses in
    if str_eq ip "" then rest else ("https://" ++ (ip ++ ":6443/healthz/etcd")) ∷ rest

-- CheckEtcdQuorumViaAPIServers, behind the building of the transport
unfoldable pub check_etcd_quorum : (String → Bool) → List Node → EtcdQuorumStatus
unfolding check_etcd_healthz_endpoints healthz_urls
check_etcd_quorum answers_ok nodes = check_etcd_healthz_endpoints answers_ok (healthz_urls nodes)

unfoldable pub count_ready : List Node → ℕ
unfolding is_node_ready
count_ready [] = 0
count_ready (node ∷ nodes) =
    let rest = count_ready nodes in if is_node_ready node then suc rest else rest

-- CheckControlPlaneHealth, behind ListControlPlaneNodes
unfoldable pub control_plane_health : List Node → ControlPlaneHealth
unfolding count_ready shortfall
control_plane_health [] = record {
  healthy = true;
  total_nodes = 0;
  ready_nodes = 0;
  reason = "no control-plane nodes found (managed control plane, or labels missing)";
}
control_plane_health (node ∷ nodes) =
    let total = length (node ∷ nodes) in
    let ready = count_ready (node ∷ nodes) in
    record {
      healthy = leb (quorum total) ready;
      total_nodes = total;
      ready_nodes = ready;
      reason =
          if leb (quorum total) ready
          then ""
          else shortfall ready total " control-plane nodes Ready, need at least " " for quorum";
    }
