-- ===== src/StepPlan/Plan.antt =====
-- ComputeStepPlan of pkg/upgrade/stepplan.go: the shape of a plan.
use Prim.Native.String.{◌++◌}
use kubernetes_upgrade_opera.Base.{
  ℕ, zero, suc, ◌+◌, ◌^◌, ◌<◌, Ordering, pos, sub_ℕ, int64_small, add64_exact, String, ◌≡◌, refl,
  Bool, true, false, List, [], ◌∷◌, if◌then◌else◌, decimal_int, arith, length, All,
}
use kubernetes_upgrade_opera.Result.{ok, err, downgrade_refused}
use kubernetes_upgrade_opera.Version.{Semver, SemverLaws, Reads, dotted, is_single_minor_hop}
use kubernetes_upgrade_opera.Version.Laws.{
  compare_versions-ok, minor_diff-ok, is_single_minor_hop_iff,
}
use kubernetes_upgrade_opera.Version.Dotted.{Reads-dotted}
use kubernetes_upgrade_opera.StepPlan.{UpgradeStep, step, version_text, hops, compute_step_plan}

-- The steps lead from one version text to another, each from where the last one ended.
abbrev pub Linked : String → List UpgradeStep → String → Type 0
Linked from [] target = from ≡ target
Linked from (s ∷ rest) target = (s.from_version ≡ from) × Linked s.to_version rest target

-- The step moves up by exactly one minor version within one major version.
abbrev pub IsHop : Semver → UpgradeStep → Type 0
IsHop S s = is_single_minor_hop S s.from_version s.to_version ≡ ok true

version_text-dotted : (a b c : ℕ) → version_text (pos a) (pos b) (pos c) ≡ "v" ++ dotted a b c
unfolding version_text dotted decimal_int
version_text-dotted a b c = refl

-- Where the version library reads plain "a.b.c" as it is written: a version text that ComputeStepPlan
-- prints, of three numbers below 2^63, is read back by ParseVersion as a version of these numbers.
pub version_text-Reads :
    (S : Semver) (L : SemverLaws S) (a b c : ℕ)
    → a < 2 ^ 63
    → b < 2 ^ 63
    → c < 2 ^ 63
    → (v : S.Version) × Reads S (version_text (pos a) (pos b) (pos c)) v
      × (S.major v ≡ a)
      × (S.minor v ≡ b)
      × (S.patch v ≡ c)
version_text-Reads S L a b c ha hb hc = rw version_text-dotted (Reads-dotted S L a b c ha hb hc)

sub_ℕ-add : (a b n : ℕ) → b + n ≡ a → sub_ℕ a b ≡ pos n
sub_ℕ-add a b n h = ground arith

module _ (S : Semver) (L : SemverLaws S) (target : String) (v : S.Version)
    (q : Reads S target v) where
  -- what `hops` gives from a text that reads `suc n` minor versions below the target
  hops_lem :
      (n i major minor : ℕ) (from : String) (w : S.Version)
      → Reads S from w
      → major ≡ S.major v
      → S.major w ≡ major
      → minor + i ≡ S.minor w + 1
      → S.minor w + suc n ≡ S.minor v
      → let steps = hops (suc n) (pos i) (pos major) (pos minor) target from in
        (length steps ≡ suc n) × Linked from steps target × All (IsHop S) steps
  unfolding hops
  hops_lem zero i major minor from w p em ew ei e =
      (refl, (refl, refl), ((is_single_minor_hop_iff p q).1 (omega arith), tt))
  hops_lem (suc n) i major minor from w p em ew ei e =
      let (w', p', mj, mn, _) =
        Reads-dotted S L major (minor + i) 0 (omega arith) (omega arith) (omega arith) in
      let (el, li, al) =
        hops_lem n (i + 1) major minor ("v" ++ dotted major (minor + i) 0) w' p' em mj (omega arith)
          (omega arith) in
      rw (add64_exact minor i (omega arith), add64_exact i 1 (omega arith), version_text-dotted)
        (omega (arith, el), (refl, li), ((is_single_minor_hop_iff p p').1 (omega arith), al))

module _ {S : Semver} (L : SemverLaws S) {current target : String} {u v : S.Version}
    (p : Reads S current u) (q : Reads S target v) where
  -- The version text from which the first hop of a plan starts.
  abbrev pub start_text : String
  start_text = "v" ++ dotted (S.major u) (S.minor u) (S.patch u)

  -- Let the version library be as documented, and both versions be read, with numbers below 2^63. An
  -- upgrade over `suc n` minor versions within one major version is planned as exactly that many
  -- steps: they lead from the numbers of the current version to the target without a gap, each a
  -- single minor hop.
  pub compute_step_plan-hops :
      (allow : Bool) (n : ℕ)
      → S.compare u v ≡ Ordering.lt
      → S.major u ≡ S.major v
      → S.minor u + suc n ≡ S.minor v
      → (steps : List UpgradeStep) × (compute_step_plan S current target allow ≡ ok steps)
        × (length steps ≡ suc n)
        × Linked start_text steps target
        × All (IsHop S) steps
  unfolding compute_step_plan
  compute_step_plan-hops allow n lt same up =
      let (w, pw, mj, mn, _) =
        Reads-dotted S L (S.major u) (S.minor u) (S.patch u) p.major_small p.minor_small
          p.patch_small in
      let (el, li, al) =
        hops_lem S L target v q n 1 (S.major u) (S.minor u) start_text w pw same mj (omega arith)
          (omega arith) in
      (
        hops (suc n) (pos 1) (pos (S.major u)) (pos (S.minor u)) target start_text,
        rw (
          compare_versions-ok p q,
          lt,
          minor_diff-ok p q same,
          sub_ℕ-add (S.minor v) (S.minor u) (suc n) up,
          p.accepted,
          int64_small _ p.major_small,
          int64_small _ p.minor_small,
          int64_small _ p.patch_small,
          version_text-dotted,
        ),
        el,
        li,
        al,
      )

  -- Let both versions be read, with numbers below 2^63, and the target be older. Then the downgrade is
  -- refused unless it is allowed; allowed, it is one direct step.
  pub compute_step_plan-downgrade :
      (allow : Bool)
      → S.compare u v ≡ Ordering.gt
      → compute_step_plan S current target allow
        ≡ (if allow then ok (step current target ∷ []) else err (downgrade_refused target current))
  unfolding compute_step_plan
  compute_step_plan-downgrade true gt = rw (compare_versions-ok p q, gt)
  compute_step_plan-downgrade false gt = rw (compare_versions-ok p q, gt)

  -- A version of the same precedence needs no step.
  pub compute_step_plan-same :
      (allow : Bool)
      → S.compare u v ≡ Ordering.eq
      → compute_step_plan S current target allow ≡ ok []
  unfolding compute_step_plan
  compute_step_plan-same allow eq = rw (compare_versions-ok p q, eq)

  -- A newer patch or release of the same minor version is one direct step.
  pub compute_step_plan-patch :
      (allow : Bool)
      → S.compare u v ≡ Ordering.lt
      → S.major u ≡ S.major v
      → S.minor u ≡ S.minor v
      → compute_step_plan S current target allow ≡ ok (step current target ∷ [])
  unfolding compute_step_plan
  compute_step_plan-patch allow lt same level = rw (
    compare_versions-ok p q,
    lt,
    minor_diff-ok p q same,
    sub_ℕ-add (S.minor v) (S.minor u) 0 (omega arith),
  )
