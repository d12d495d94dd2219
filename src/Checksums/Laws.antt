-- ===== src/Checksums/Laws.antt =====
-- Lookups fail closed.
use kubernetes_upgrade_opera.Base.{
  String, str_eq, Bool, true, false, ◌||◌, Option, none, some, List, ◌≡◌, refl, ◌↔◌, sym,
  if◌then◌else◌,
}
use kubernetes_upgrade_opera.Result.{Error, no_checksums, ok, err}
use kubernetes_upgrade_opera.Checksums.{KubeSet, Table, find_entry, complete_kube, lookup_kube}

-- The table has the find_entry, and none of its checksums is empty.
pub record Pinned (table : Table) (version arch : String) (set : KubeSet) : Type 0 where
  pub by_arch : List (String × KubeSet)
  pub listed : find_entry table.versions version ≡ some by_arch
  pub found_in : find_entry by_arch arch ≡ some set
  pub has_kubeadm : str_eq set.kubeadm "" ≡ false
  pub has_kubelet : str_eq set.kubelet_deb "" ≡ false

passes :
    (set given : KubeSet) (e : Error) (a b : Bool)
    → (if a || b then err e else ok given) ≡ ok set
    → (a ≡ false) × (b ≡ false) × (given ≡ set)
passes set given e true b h = absurd cc
passes set given e false true h = absurd cc
passes set given e false false h = (refl, refl, cc)

module _ (table : Table) (version arch : String) (set : KubeSet) where
  complete-Pinned :
      (by_arch : List (String × KubeSet)) (o : Option KubeSet)
      → find_entry table.versions version ≡ some by_arch
      → find_entry by_arch arch ≡ o
      → complete_kube version arch o ≡ ok set
      → Pinned table version arch set
  complete-Pinned by_arch none e f h = absurd cc
  complete-Pinned by_arch (some given) e f h =
      let (a, b, same) = passes set given _ _ _ h in
      record {
        by_arch = by_arch;
        listed = e;
        found_in = rw (sym same) f;
        has_kubeadm = rw (sym same) a;
        has_kubelet = rw (sym same) b;
      }

  found-Pinned : lookup_kube table version arch ≡ ok set → Pinned table version arch set
  unfolding lookup_kube
  found-Pinned h = by_entry (find_entry table.versions version) refl h
    where
      by_entry :
          (o : Option (List (String × KubeSet)))
          → find_entry table.versions version ≡ o
          → elim o [
            | none ↦ err (no_checksums version arch)
            | some by_arch ↦ complete_kube version arch (find_entry by_arch arch)
          ]
            ≡ ok set
          → Pinned table version arch set
      by_entry none e h = absurd cc
      by_entry (some by_arch) e h = complete-Pinned by_arch _ e refl h

  Pinned-found : Pinned table version arch set → lookup_kube table version arch ≡ ok set
  unfolding lookup_kube
  Pinned-found p = rw (lookup_kube, p.listed, p.found_in, p.has_kubeadm, p.has_kubelet) refl

-- LookupKube returns exactly the entries of the table for the version and the architecture of which
-- no checksum is empty; in every other case it is an error.
pub lookup_kube_iff :
    (table : Table) (version arch : String) (set : KubeSet)
    → (lookup_kube table version arch ≡ ok set) ↔ Pinned table version arch set
lookup_kube_iff table version arch set =
    (found-Pinned table version arch set, Pinned-found table version arch set)
