-- ===== src/Webhook/Laws.antt =====
-- Which upgrades the webhook admits.
use kubernetes_upgrade_opera.Base.{
  ℕ, ◌+◌, ◌≤◌, String, Bool, true, false, some, Ordering, ◌≡◌, refl, ◌↔◌, arith,
}
use kubernetes_upgrade_opera.Result.{ok}
use kubernetes_upgrade_opera.Types.{KubernetesUpgrade}
use kubernetes_upgrade_opera.Version.{Semver, Reads}
use kubernetes_upgrade_opera.Version.Laws.{minor_diff-eq}
use kubernetes_upgrade_opera.Upgrade.Discovering.Planning.{downgrade_allowed}
use kubernetes_upgrade_opera.Webhook.{check_order, validate}

-- What is admitted, by how the target compares to the API server's version.
abbrev pub Admitted : Ordering → Bool → ℕ → ℕ → ℕ → ℕ → Type 0
Admitted Ordering.lt allow major minor major' minor' = allow ≡ true
Admitted Ordering.eq allow major minor major' minor' = Unit
Admitted Ordering.gt allow major minor major' minor' = (major ≡ major') × (minor' ≤ minor + 5)

module _ {S : Semver} {a b : String} {u v : S.Version} (p : Reads S a u) (q : Reads S b v) where
  check_order_iff :
      (allow : Bool) (o : Ordering)
      → (check_order S a b allow o ≡ ok tt)
        ↔ Admitted o allow (S.major v) (S.minor v) (S.major u) (S.minor u)
  unfolding check_order
  check_order_iff true Ordering.lt = (λ h. refl, λ h. refl)
  check_order_iff false Ordering.lt = (λ h. absurd cc, λ h. absurd cc)
  check_order_iff allow Ordering.eq = (λ h. tt, λ h. refl)
  check_order_iff allow Ordering.gt = rw (minor_diff-eq q p) (λ h. ground arith, λ h. ground arith)

-- Let the target `u` of an upgrade and the API server's version `v` be read, with numbers below 2^63.
-- The webhook admits the upgrade exactly if its target is older and downgrades are allowed, or it is
-- equal, or it is newer, of the same major version and at most five minor versions ahead.
pub validate_iff :
    {S : Semver} {server : String} {u v : S.Version} (ku : KubernetesUpgrade)
    → Reads S ku.spec.target_version u
    → Reads S server v
    → (validate S ku (some server) ≡ ok tt)
      ↔ Admitted
          (S.compare u v)
          (downgrade_allowed ku.spec.safety)
          (S.major v)
          (S.minor v)
          (S.major u)
          (S.minor u)
unfolding validate
validate_iff {S = S} {u = u} {v = v} ku p q =
    rw (p.accepted, q.accepted)
      (check_order_iff p q (downgrade_allowed ku.spec.safety) (S.compare u v))
