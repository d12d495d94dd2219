-- ===== src/StepPlan/Refusals.antt =====
-- When ComputeStepPlan of pkg/upgrade/stepplan.go returns a plan at all.
use kubernetes_upgrade_opera.Base.{
  ℕ, zero, suc, ◌+◌, ◌-◌, ◌≤◌, leb, leb→le, ◌==◌, ==_iff, Ordering, Bool-cases, Ordering-cases,
  String, ◌≡◌, ◌≢◌, refl, sym, ◌⊎◌, inl, inr, ◌↔◌, Bool, true, false, List, [], arith,
}
use kubernetes_upgrade_opera.Result.{ok, err, major_change}
use kubernetes_upgrade_opera.Version.{Semver, SemverLaws, Reads}
use kubernetes_upgrade_opera.Version.Laws.{compare_versions-ok, minor_diff-eq}
use kubernetes_upgrade_opera.StepPlan.{UpgradeStep, compute_step_plan}
use kubernetes_upgrade_opera.StepPlan.Plan.{
  compute_step_plan-hops, compute_step_plan-downgrade, compute_step_plan-same,
  compute_step_plan-patch,
}

module _ {S : Semver} (L : SemverLaws S) {current target : String} {u v : S.Version}
    (p : Reads S current u) (q : Reads S target v) where
  -- Where the numbers decide, a newer version of one major version has no smaller minor version.
  newer-minor : S.compare u v ≡ Ordering.lt → S.major u ≡ S.major v → S.minor u ≤ S.minor v
  newer-minor lt same = elim (Bool-cases (leb (S.minor u) (S.minor v))) [
    | inl small ↦ leb→le (S.minor u) (S.minor v) small
    | inr big ↦
        let back : S.compare v u ≡ Ordering.lt = L.compare_minor v u (sym same) (ground arith) in
        absurd (cc (lt, L.compare_flip v u back))
  ]

  plans_newer :
      (allow : Bool)
      → S.compare u v ≡ Ordering.lt
      → S.major u ≡ S.major v
      → (plan : List UpgradeStep) × (compute_step_plan S current target allow ≡ ok plan)
  plans_newer allow lt same =
      by_difference (S.minor v - S.minor u) (omega (arith, newer-minor lt same))
    where
      by_difference :
          (n : ℕ)
          → S.minor u + n ≡ S.minor v
          → (plan : List UpgradeStep) × (compute_step_plan S current target allow ≡ ok plan)
      by_difference zero level =
          (_, compute_step_plan-patch L p q allow lt same (omega (arith, level)))
      by_difference (suc n) up =
          let (plan, e, _, _, _) = compute_step_plan-hops L p q allow n lt same up in (plan, e)

  refused_across :
      (allow : Bool)
      → S.compare u v ≡ Ordering.lt
      → (S.major u == S.major v) ≡ false
      → compute_step_plan S current target allow ≡ err (major_change (S.major u) (S.major v))
  unfolding compute_step_plan
  refused_across allow lt differ = rw (compare_versions-ok p q, lt, minor_diff-eq p q, differ)

  -- Why there is a plan.
  abbrev pub MayPlan : Bool → Type 0
  MayPlan allow =
      (S.compare u v ≡ Ordering.eq)
      ⊎ ((S.compare u v ≡ Ordering.gt) × (allow ≡ true))
      ⊎ ((S.compare u v ≡ Ordering.lt) × (S.major u ≡ S.major v))

  unplanned :
      (b : Bool)
      → MayPlan b
      → (S.compare u v ≢ Ordering.eq)
      → ((S.compare u v ≡ Ordering.gt) → b ≢ true)
      → ((S.compare u v ≡ Ordering.lt) → S.major u ≢ S.major v)
      → ⊥
  unplanned b (inl e) f g h = f e
  unplanned b (inr (inl (e, allowed))) f g h = g e allowed
  unplanned b (inr (inr (e, same))) f g h = h e same

  -- Let both versions be read, with numbers below 2^63. ComputeStepPlan returns a plan exactly if the
  -- versions have one precedence, or the target is older and downgrades are allowed, or it is newer
  -- and of the same major version; in all other cases it returns an error.
  pub compute_step_plan_iff :
      (allow : Bool)
      → ((plan : List UpgradeStep) × (compute_step_plan S current target allow ≡ ok plan))
        ↔ MayPlan allow
  compute_step_plan_iff allow = by_order allow (Ordering-cases (S.compare u v))
    where
      for_older :
          (b : Bool)
          → S.compare u v ≡ Ordering.gt
          → ((plan : List UpgradeStep) × (compute_step_plan S current target b ≡ ok plan))
            ↔ MayPlan b
      for_older true e =
          (λ _. inr (inl (e, refl)), λ _. (_, compute_step_plan-downgrade L p q true e))
      for_older false e = (
        λ (_, made). absurd (cc (made, compute_step_plan-downgrade L p q false e)),
        λ may. absurd (
            unplanned false may (λ f. absurd (cc (e, f))) (λ f g. absurd cc)
              (λ f g. absurd (cc (e, f)))),
      )

      for_newer :
          (b same : Bool)
          → S.compare u v ≡ Ordering.lt
          → (S.major u == S.major v) ≡ same
          → ((plan : List UpgradeStep) × (compute_step_plan S current target b ≡ ok plan))
            ↔ MayPlan b
      for_newer b true e same =
          let one = (==_iff (S.major u) (S.major v)).0 same in
          (λ _. inr (inr (e, one)), λ _. plans_newer b e one)
      for_newer b false e differ = (
        λ (_, made). absurd (cc (made, refused_across b e differ)),
        λ may. absurd (
            unplanned b may (λ f. absurd (cc (e, f))) (λ f g. absurd (cc (e, f)))
              (λ f g. absurd (cc (differ, (==_iff (S.major u) (S.major v)).1 g)))),
      )

      by_order :
          (b : Bool)
          → (S.compare u v ≡ Ordering.lt)
            ⊎ (S.compare u v ≡ Ordering.eq)
            ⊎ (S.compare u v ≡ Ordering.gt)
          → ((plan : List UpgradeStep) × (compute_step_plan S current target b ≡ ok plan))
            ↔ MayPlan b
      by_order b (inl e) = for_newer b (S.major u == S.major v) e refl
      by_order b (inr (inl e)) = (λ _. inl e, λ _. ([], compute_step_plan-same L p q b e))
      by_order b (inr (inr e)) = for_older b e
