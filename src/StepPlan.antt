-- ===== src/StepPlan.antt =====
-- pkg/upgrade/stepplan.go: the hops of an upgrade, and the target of one group for one pass.
pub mod Plan
pub mod Waypoint
pub mod Refusals
use Prim.Native.String.{◌++◌}
use kubernetes_upgrade_opera.Base.{
  ℕ, zero, suc, ◌+◌, ◌%◌, ◌^◌, Ordering, ℤ, pos, negsuc, leb_ℤ, int64, add64, String, Bool, true,
  false, not, Option, none, List, [], ◌∷◌, if◌then◌else◌, decimal_int,
}
use kubernetes_upgrade_opera.Result.{Result, ok, err, downgrade_refused, go_panic, ◌>>=◌}
use kubernetes_upgrade_opera.Version.{Semver, dotted, parse_version, compare_versions, minor_diff}

-- UpgradeStep of api/v1alpha1; a time stands as the number that the clock showed
pub record UpgradeStep : Type 0 where
  pub from_version : String
  pub to_version : String
  pub completed_at : Option ℤ

abbrev pub step : String → String → UpgradeStep
step from to = record { from_version = from; to_version = to; completed_at = none }

-- fmt.Sprintf("v%d.%d.%d", a, b, c)
unfoldable pub version_text : ℤ → ℤ → ℤ → String
version_text a b c = "v" ++ (decimal_int a ++ ("." ++ (decimal_int b ++ ("." ++ decimal_int c))))

-- The loop of ComputeStepPlan, with `diff - i + 1` rounds left; the round of `i == diff` lands on
-- the target.
unfoldable pub hops : ℕ → ℤ → ℤ → ℤ → String → String → List UpgradeStep
unfolding version_text
hops zero i major minor target from = []
hops (suc zero) i major minor target from = step from target ∷ []
hops (suc (suc n)) i major minor target from =
    let to = version_text major (add64 minor i) (pos 0) in
    step from to ∷ hops (suc n) (add64 i (pos 1)) major minor target to

module _ (S : Semver) where
  -- The tail of ComputeStepPlan, behind the comparison: a positive difference gives that many
  -- rounds, and a negative capacity makes `make` panic.
  unfoldable pub plan_hops : String → String → ℤ → Result (List UpgradeStep)
  plan_hops current target (pos zero) = ok (step current target ∷ [])
  plan_hops current target (negsuc n) = err go_panic
  plan_hops current target (pos (suc n)) = do
    cv ← parse_version S current
    let major = int64 (S.major cv)
    let minor = int64 (S.minor cv)
    let patch = int64 (S.patch cv)
    ok (hops (suc n) (pos 1) major minor target (version_text major minor patch))

  unfoldable pub plan_by_order : String → String → Bool → Ordering → Result (List UpgradeStep)
  unfolding plan_hops
  plan_by_order current target allow Ordering.eq = ok []
  plan_by_order current target allow Ordering.gt =
      if not allow then err (downgrade_refused target current) else ok (step current target ∷ [])
  plan_by_order current target allow Ordering.lt = do
    diff ← minor_diff S current target
    plan_hops current target diff

  unfoldable pub compute_step_plan : String → String → Bool → Result (List UpgradeStep)
  unfolding plan_by_order
  compute_step_plan current target allow_downgrade = do
    cmp ← compare_versions S current target
    plan_by_order current target allow_downgrade cmp

  unfoldable pub target_by_order : String → String → Ordering → Result String
  target_by_order group hop Ordering.gt = ok group
  target_by_order group hop Ordering.eq = ok hop
  target_by_order group hop Ordering.lt = do
    diff ← minor_diff S group hop
    if leb_ℤ diff (pos 1) then ok hop else do
      cv ← parse_version S group
      ok ("v" ++ dotted (S.major cv) ((S.minor cv + 1) % 2 ^ 64) 0)

  unfoldable pub next_group_target : String → String → Result String
  unfolding target_by_order
  next_group_target group_current hop_target = do
    cmp ← compare_versions S group_current hop_target
    target_by_order group_current hop_target cmp
