-- ===== src/Health/Majority.antt =====
-- The two checks of pkg/k8sutil/health.go against a strict majority.
use kubernetes_upgrade_opera.Base.{
  ℕ, ◌*◌, ◌<◌, leb, String, ◌≡◌, ◌↔◌, refl, ◌⊎◌, inl, inr, Bool, true, List, [], ◌∷◌, length, arith,
}
use kubernetes_upgrade_opera.Core.{Node}
use kubernetes_upgrade_opera.Health.{
  quorum, count_healthy, check_etcd_healthz_endpoints, count_ready, control_plane_health,
}

pub majority_iff : (total n : ℕ) → (leb (quorum total) n ≡ true) ↔ (total < 2 * n)
majority_iff total n = (λ h. ground arith, λ h. ground arith)

-- The etcd check is healthy exactly if there is no URL to ask, or more than half of the URLs answer
-- 200 OK.
pub check_etcd_healthz_endpoints_iff :
    (answers_ok : String → Bool) (urls : List String)
    → ((check_etcd_healthz_endpoints answers_ok urls).healthy ≡ true)
      ↔ ((urls ≡ []) ⊎ (length urls < 2 * count_healthy answers_ok urls))
unfolding check_etcd_healthz_endpoints
check_etcd_healthz_endpoints_iff answers_ok [] = (λ h. inl refl, λ h. refl)
check_etcd_healthz_endpoints_iff answers_ok (url ∷ urls) =
    let both = majority_iff (length (url ∷ urls)) (count_healthy answers_ok (url ∷ urls)) in
    (λ h. inr (both.0 h), λ h. elim h [ inl e ↦ absurd (cc e) | inr m ↦ both.1 m ])

-- The control plane is healthy exactly if it shows no node, or more than half of its nodes are Ready.
pub control_plane_health_iff :
    (nodes : List Node)
    → ((control_plane_health nodes).healthy ≡ true)
      ↔ ((nodes ≡ []) ⊎ (length nodes < 2 * count_ready nodes))
unfolding control_plane_health
control_plane_health_iff [] = (λ h. inl refl, λ h. refl)
control_plane_health_iff (node ∷ nodes) =
    let both = majority_iff (length (node ∷ nodes)) (count_ready (node ∷ nodes)) in
    (λ h. inr (both.0 h), λ h. elim h [ inl e ↦ absurd (cc e) | inr m ↦ both.1 m ])
