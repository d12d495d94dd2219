-- ===== src/Examples/Plan.antt =====
-- Versions, plans and batches on concrete inputs.
use kubernetes_upgrade_opera.Base.{
  ◌+◌, ◌≤◌, ◌-◌, Ordering, pos, ◌≤ℤ◌, String, ◌≡◌, ◌≢◌, ◌↔◌, refl, true, false, none, some, List,
  [], ◌∷◌, length, All, arith, trim_prefix, trim_space,
}
use kubernetes_upgrade_opera.Result.{ok}
use kubernetes_upgrade_opera.Version.{Reads, parse_version, check_version_skew}
use kubernetes_upgrade_opera.Version.Laws.{check_version_skew_iff}
use kubernetes_upgrade_opera.Version.Sample.{Numbers, sample, sample_laws, read_numbers, order}
use kubernetes_upgrade_opera.StepPlan.{
  UpgradeStep, version_text, compute_step_plan, next_group_target,
}
use kubernetes_upgrade_opera.StepPlan.Refusals.{MayPlan, compute_step_plan_iff}
use kubernetes_upgrade_opera.StepPlan.Plan.{
  Linked, IsHop, version_text-Reads, start_text, compute_step_plan-hops,
}
use kubernetes_upgrade_opera.StepPlan.Waypoint.{
  IsWaypoint, next_group_target-IsWaypoint, passes, passes-arrive,
}
use kubernetes_upgrade_opera.Batches.{
  resolve_concurrency, unclamped, by_unavailable, clamp, next_batch,
}
use kubernetes_upgrade_opera.Batches.Limit.{resolve_concurrency-bounds}
use kubernetes_upgrade_opera.Batches.Selection.{take, eligible, next_batch-eq-take}
use kubernetes_upgrade_opera.Examples.Samples.{sample_scaled}

abbrev old : Numbers
old = record { major = 1; minor = 28; patch = 3 }

abbrev new : Numbers
new = record { major = 1; minor = 30; patch = 0 }

reads_old : Reads sample "v1.28.3" old
unfolding parse_version trim_prefix trim_space read_numbers
reads_old = record {
  accepted = refl;
  major_small = omega arith;
  minor_small = omega arith;
  patch_small = omega arith;
}

reads_new : Reads sample "v1.30.0" new
unfolding parse_version trim_prefix trim_space read_numbers
reads_new = record {
  accepted = refl;
  major_small = omega arith;
  minor_small = omega arith;
  patch_small = omega arith;
}

old_lt : order old new ≡ Ordering.lt
unfolding order
old_lt = refl

new_gt : order new old ≡ Ordering.gt
unfolding order
new_gt = refl

old_not_ahead : order old new ≢ Ordering.gt
unfolding order
old_not_ahead e = absurd cc

two_up : old.minor + 2 ≡ new.minor
two_up = omega arith

compute_step_plan-hops_example :
    (steps : List UpgradeStep) × (compute_step_plan sample "v1.28.3" "v1.30.0" false ≡ ok steps)
    × (length steps ≡ 2)
    × Linked (start_text sample_laws reads_old reads_new) steps "v1.30.0"
    × All (IsHop sample) steps
compute_step_plan-hops_example =
    compute_step_plan-hops sample_laws reads_old reads_new false 1 old_lt refl two_up

compute_step_plan_iff_example :
    ((plan : List UpgradeStep) × (compute_step_plan sample "v1.28.3" "v1.30.0" false ≡ ok plan))
    ↔ MayPlan sample_laws reads_old reads_new false
compute_step_plan_iff_example = compute_step_plan_iff sample_laws reads_old reads_new false

next_group_target-IsWaypoint_example :
    (t : String) × (w : Numbers) × (next_group_target sample "v1.28.3" "v1.30.0" ≡ ok t)
    × Reads sample t w
    × IsWaypoint sample old new w
next_group_target-IsWaypoint_example =
    next_group_target-IsWaypoint sample_laws reads_old reads_new refl old_not_ahead

passes-arrive_example : passes sample 2 "v1.28.3" "v1.30.0" ≡ ok "v1.30.0"
passes-arrive_example =
    passes-arrive sample_laws reads_new 1 reads_old refl old_not_ahead (omega arith)

check_version_skew_iff_example :
    (check_version_skew sample "v1.30.0" "v1.28.3" ≡ ok tt)
    ↔ ((old.major ≡ new.major) × (old.minor ≤ new.minor) × (new.minor ≤ old.minor + 3))
check_version_skew_iff_example = check_version_skew_iff reads_new reads_old

version_text-Reads_example :
    (v : Numbers) × Reads sample (version_text (pos 1) (pos 31) (pos 0)) v
    × (v.major ≡ 1)
    × (v.minor ≡ 31)
    × (v.patch ≡ 0)
version_text-Reads_example =
    version_text-Reads sample sample_laws 1 31 0 (omega arith) (omega arith) (omega arith)

-- a batch size of 2 for three nodes
limit_two : resolve_concurrency sample_scaled (pos 3) (some (pos 2)) none ≡ ok (pos 2)
unfolding resolve_concurrency unclamped by_unavailable clamp
limit_two = refl

resolve_concurrency-bounds_example : (pos 1 ≤ℤ pos 2) × (pos 2 ≤ℤ pos 3)
resolve_concurrency-bounds_example =
    resolve_concurrency-bounds sample_scaled 2 (some (pos 2)) none limit_two

next_batch-eq-take_example :
    next_batch sample_scaled ("a" ∷ "b" ∷ "c" ∷ []) (("a", true) ∷ []) [] (some (pos 2)) none
    ≡ ok (take (2 - 0) (eligible (("a", true) ∷ []) [] ("a" ∷ "b" ∷ "c" ∷ [])))
next_batch-eq-take_example =
    next_batch-eq-take sample_scaled ("a" ∷ "b" ∷ "c" ∷ []) (("a", true) ∷ []) [] (some (pos 2))
      none (pos 2) limit_two
