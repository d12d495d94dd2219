-- ===== src/Version.antt =====
-- pkg/k8sutil/version.go: Kubernetes version strings.
--
-- The parser and the order are those of github.com/Masterminds/semver, a parameter: `Semver` has the
-- operations that the program calls, `SemverLaws` what it relies on.
pub mod Laws
pub mod Dotted
pub mod Sample
use kubernetes_upgrade_opera.Base.{
  ℕ, ◌+◌, ◌^◌, ◌≤◌, ◌<◌, Ordering, ℤ, pos, ltb_ℤ, int64, sub64, String, ◌≡◌, ◌≢◌, Bool, true, false,
  Option, none, some, ◌==◌, if◌then◌else◌, trim_prefix, trim_space, decimal,
}
use Prim.Native.String.{◌++◌}
use kubernetes_upgrade_opera.Result.{
  Error, parsing_version, major_change, kubelet_newer, kubelet_behind, Result, ok, err, ◌>>=◌,
}

pub record Semver : Type 1 where
  -- `*semver.Version`; its numbers are uint64
  pub Version : Type 0
  -- semver.NewVersion
  pub new_version : String → Option Version
  -- (*Version).Compare; `lt`, `eq` and `gt` are its -1, 0 and 1
  pub compare : Version → Version → Ordering
  pub major : Version → ℕ
  pub minor : Version → ℕ
  pub patch : Version → ℕ

-- The text of "major.minor.patch".
unfoldable pub dotted : ℕ → ℕ → ℕ → String
dotted a b c = decimal a ++ ("." ++ (decimal b ++ ("." ++ decimal c)))

-- The documented behaviour of the library that the program relies on: precedence is a total
-- preorder, the numbers decide before anything else, and a plain "a.b.c" is read as it is written.
pub record SemverLaws (S : Semver) : Type 0 where
  pub compare_refl : (v : S.Version) → S.compare v v ≡ Ordering.eq
  pub compare_flip : (u v : S.Version) → S.compare u v ≡ Ordering.lt → S.compare v u ≡ Ordering.gt
  pub compare_flop : (u v : S.Version) → S.compare u v ≡ Ordering.gt → S.compare v u ≡ Ordering.lt
  pub compare_trans :
      (u v w : S.Version)
      → S.compare u v ≢ Ordering.gt
      → S.compare v w ≢ Ordering.gt
      → S.compare u w ≢ Ordering.gt
  pub compare_minor :
      (u v : S.Version)
      → S.major u ≡ S.major v
      → S.minor u < S.minor v
      → S.compare u v ≡ Ordering.lt
  pub read_dotted :
      (a b c : ℕ)
      → a < 2 ^ 64
      → b < 2 ^ 64
      → c < 2 ^ 64
      → (v : S.Version) × (S.new_version (dotted a b c) ≡ some v)
        × (S.major v ≡ a)
        × (S.minor v ≡ b)
        × (S.patch v ≡ c)

abbrev pub max_minor_skew : ℤ
max_minor_skew = pos 3

abbrev is_one : ℤ → Bool
is_one (pos n) = n == 1
is_one _ = false

module _ (S : Semver) where
  read : String → Option S.Version → Result S.Version
  read v none = err (parsing_version v)
  read v (some parsed) = ok parsed

  unfoldable pub parse_version : String → Result S.Version
  unfolding read
  parse_version v = read v (S.new_version (trim_prefix (trim_space v) "v"))

  unfoldable pub compare_versions : String → String → Result Ordering
  compare_versions a b = do av ← parse_version a; bv ← parse_version b; ok (S.compare av bv)

  unfoldable pub minor_diff : String → String → Result ℤ
  minor_diff current target = do
    cv ← parse_version current
    tv ← parse_version target
    if S.major cv == S.major tv
        then ok (sub64 (int64 (S.minor tv)) (int64 (S.minor cv)))
        else err (major_change (S.major cv) (S.major tv))

  unfoldable pub is_single_minor_hop : String → String → Result Bool
  is_single_minor_hop current target = do diff ← minor_diff current target; ok (is_one diff)

  unfoldable pub check_version_skew : String → String → Result (Unit {0})
  check_version_skew apiserver kubelet = do
    diff ← minor_diff kubelet apiserver
    if ltb_ℤ diff (pos 0)
        then err (kubelet_newer kubelet apiserver)
        else if ltb_ℤ max_minor_skew diff
        then err (kubelet_behind kubelet apiserver)
        else ok tt

-- The text is accepted, as the version `v`, whose numbers stay within an int64.
pub record Reads (S : Semver) (t : String) (v : S.Version) : Type 0 where
  pub accepted : parse_version S t ≡ ok v
  pub major_small : S.major v < 2 ^ 63
  pub minor_small : S.minor v < 2 ^ 63
  pub patch_small : S.patch v < 2 ^ 63
