-- ===== src/Version/Laws.antt =====
-- What the functions of pkg/k8sutil/version.go return on versions that parse.
use kubernetes_upgrade_opera.Base.{
  ◌+◌, ◌≤◌, sub_ℕ, sub64_exact, String, ◌≡◌, ◌↔◌, true, arith, ==_iff, ◌==◌, if◌then◌else◌,
}
use kubernetes_upgrade_opera.Result.{ok, err, major_change}
use kubernetes_upgrade_opera.Version.{
  Semver, compare_versions, minor_diff, is_single_minor_hop, check_version_skew, Reads,
}

module _ {S : Semver} {a b : String} {u v : S.Version} (p : Reads S a u) (q : Reads S b v) where
  pub compare_versions-ok : compare_versions S a b ≡ ok (S.compare u v)
  unfolding compare_versions
  compare_versions-ok = rw (p.accepted, q.accepted)

  pub minor_diff-eq : minor_diff S a b ≡ (
      if S.major u == S.major v
      then ok (sub_ℕ (S.minor v) (S.minor u))
      else err (major_change (S.major u) (S.major v)))
  unfolding minor_diff
  minor_diff-eq =
      rw (p.accepted, q.accepted, sub64_exact (S.minor v) (S.minor u) q.minor_small p.minor_small)

  pub minor_diff-ok : S.major u ≡ S.major v → minor_diff S a b ≡ ok (sub_ℕ (S.minor v) (S.minor u))
  minor_diff-ok same = rw (minor_diff-eq, (==_iff (S.major u) (S.major v)).1 same)

module _ {S : Semver} {a b : String} {u v : S.Version} (p : Reads S a u) (q : Reads S b v) where
  -- Let both versions be read, with numbers below 2^63. The kubelet `b` is accepted beside the API
  -- server `a` exactly if both have one major version,
  -- the kubelet's minor version is not newer, and it is at most three behind.
  pub check_version_skew_iff :
      (check_version_skew S a b ≡ ok tt)
      ↔ ((S.major v ≡ S.major u) × (S.minor v ≤ S.minor u) × (S.minor u ≤ S.minor v + 3))
  unfolding check_version_skew
  check_version_skew_iff = rw (minor_diff-eq q p) (λ h. ground arith, λ h. ground arith)

  -- Let both versions be read, with numbers below 2^63. A single minor hop is exactly one minor
  -- version up within one major version.
  pub is_single_minor_hop_iff :
      (is_single_minor_hop S a b ≡ ok true)
      ↔ ((S.major u ≡ S.major v) × (S.minor v ≡ S.minor u + 1))
  unfolding is_single_minor_hop
  is_single_minor_hop_iff = rw (minor_diff-eq p q) (λ h. ground arith, λ h. ground arith)
