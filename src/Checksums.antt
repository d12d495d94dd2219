-- ===== src/Checksums.antt =====
-- pkg/checksums/checksums.go: the pinned checksums of releases. The table is a file that the build
-- embeds, a parameter: a Go map of maps is an association list of association lists.
pub mod Laws
use kubernetes_upgrade_opera.Base.{
  String, str_eq, Bool, true, false, ◌||◌, Option, none, some, List, [], ◌∷◌, if◌then◌else◌,
}
use kubernetes_upgrade_opera.Result.{no_checksums, Result, ok, err}

pub record KubeSet : Type 0 where
  pub kubeadm : String
  pub kubelet_deb : String

pub record EtcdSet : Type 0 where
  pub etcdctl_tarball : String

pub record Table : Type 0 where
  pub versions : List (String × List (String × KubeSet))
  pub etcd : List (String × List (String × EtcdSet))

-- v, ok := m[k]
unfoldable pub find_entry : {A : Type 0} → List (String × A) → String → Option A
find_entry [] k = none
find_entry ((j, a) ∷ m) k = if str_eq j k then some a else find_entry m k

-- an find_entry that has all its checksums
abbrev complete_kube : String → String → Option KubeSet → Result KubeSet
complete_kube version arch none = err (no_checksums version arch)
complete_kube version arch (some set) =
    if str_eq set.kubeadm "" || str_eq set.kubelet_deb ""
    then err (no_checksums version arch)
    else ok set

abbrev complete_etcd : String → String → Option EtcdSet → Result EtcdSet
complete_etcd version arch none = err (no_checksums version arch)
complete_etcd version arch (some set) =
    if str_eq set.etcdctl_tarball "" then err (no_checksums version arch) else ok set

unfoldable pub lookup_kube : Table → String → String → Result KubeSet
unfolding find_entry
lookup_kube table version arch = elim (find_entry table.versions version) [
  | none ↦ err (no_checksums version arch)
  | some by_arch ↦ complete_kube version arch (find_entry by_arch arch)
]

unfoldable pub lookup_etcd : Table → String → String → Result EtcdSet
unfolding find_entry
lookup_etcd table version arch = elim (find_entry table.etcd version) [
  | none ↦ err (no_checksums version arch)
  | some by_arch ↦ complete_etcd version arch (find_entry by_arch arch)
]
