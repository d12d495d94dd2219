-- ===== src/Webhook.antt =====
-- internal/webhook/v1alpha1/kubernetesupgrade_webhook.go: which upgrades the API server admits.
--
-- The answer of the discovery endpoint is a parameter: the API server's version, or an error.
pub mod Laws
use text.Mathlib.Text.{is_lt}
use kubernetes_upgrade_opera.Base.{
  ℤ, pos, ltb_ℤ, String, Bool, true, false, not, ◌&&◌, Option, none, some, Ordering, if◌then◌else◌,
}
use kubernetes_upgrade_opera.Result.{
  Error, server_version, downgrade_refused, wrapped, Result, ok, err, context, too_far_ahead, ◌>>=◌,
  ◌>>◌,
}
use kubernetes_upgrade_opera.Types.{SafetyPolicy, KubernetesUpgrade}
use kubernetes_upgrade_opera.Version.{Semver, parse_version, minor_diff}
use kubernetes_upgrade_opera.Upgrade.Discovering.Planning.{downgrade_allowed}

abbrev pub max_hop_count : ℤ
max_hop_count = pos 5

abbrev server_version_of : Option String → Result String
server_version_of none = err server_version
server_version_of (some v) = ok v

module _ (S : Semver) where
  -- the tests behind the comparison, for the target and the current version
  unfoldable pub check_order : String → String → Bool → Ordering → Result (Unit {0})
  check_order target current allow Ordering.lt =
      if not allow then err (downgrade_refused target current) else ok tt
  check_order target current allow Ordering.eq = ok tt
  check_order target current allow Ordering.gt = do
    diff ← context "spec.targetVersion" (minor_diff S current target)
    if ltb_ℤ max_hop_count diff then err (too_far_ahead target diff) else ok tt

  unfoldable pub validate : KubernetesUpgrade → Option String → Result (Unit {0})
  unfolding check_order parse_version downgrade_allowed
  validate ku answer = do
    target ← context "spec.targetVersion" (parse_version S ku.spec.target_version)
    git_version ← context "checking cluster version" (server_version_of answer)
    current ← context "parsing cluster version" (parse_version S git_version)
    check_order ku.spec.target_version git_version (downgrade_allowed ku.spec.safety)
        (S.compare target current)

  unfoldable pub validate_create : KubernetesUpgrade → Option String → Result (Unit {0})
  unfolding validate
  validate_create ku answer = validate ku answer

  unfoldable pub validate_update :
      KubernetesUpgrade → KubernetesUpgrade → Option String → Result (Unit {0})
  unfolding validate
  validate_update old new answer = validate new answer

  unfoldable pub validate_delete : KubernetesUpgrade → Result (Unit {0})
  validate_delete ku = ok tt
