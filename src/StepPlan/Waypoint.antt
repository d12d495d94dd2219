-- ===== src/StepPlan/Waypoint.antt =====
-- NextGroupTarget of pkg/upgrade/stepplan.go: one target, and repeated passes.
use Prim.Native.String.{◌++◌}
use kubernetes_upgrade_opera.Base.{
  ℕ, zero, suc, ◌+◌, ◌≤◌, ◌<◌, Ordering, pos, leb_ℤ, sub_ℕ, String, ◌≡◌, ◌≢◌, refl, sym, ◌∙◌, inl,
  inr, true, false, arith, ap, Ordering-cases, dec_le,
}
use kubernetes_upgrade_opera.Result.{Result, ok, ◌>>=◌}
use kubernetes_upgrade_opera.Version.{Semver, SemverLaws, Reads, dotted}
use kubernetes_upgrade_opera.Version.Laws.{compare_versions-ok, minor_diff-ok}
use kubernetes_upgrade_opera.Version.Dotted.{Reads-dotted}
use kubernetes_upgrade_opera.StepPlan.{next_group_target}

close : (a b : ℕ) → a ≤ b + 1 → leb_ℤ (sub_ℕ a b) (pos 1) ≡ true
close a b h = ground arith

wide : (a b : ℕ) → b + 1 < a → leb_ℤ (sub_ℕ a b) (pos 1) ≡ false
wide a b h = ground arith

-- `w` is a version between the group's own and the hop's target, at most one minor version up.
pub record IsWaypoint (S : Semver) (u v : S.Version) (w : S.Version) : Type 0 where
  pub no_regress : S.compare u w ≢ Ordering.gt
  pub no_skip : S.minor w ≤ S.minor u + 1
  pub no_overshoot : S.compare w v ≢ Ordering.gt
  pub same_major : S.major w ≡ S.major u

module _ {S : Semver} (L : SemverLaws S) {group hop : String} {u v : S.Version}
    (p : Reads S group u) (q : Reads S hop v) (same : S.major u ≡ S.major v) where
  -- precedence follows the minor numbers
  pub minor-le : S.compare u v ≢ Ordering.gt → S.minor u ≤ S.minor v
  minor-le h = elim (dec_le (S.minor u) (S.minor v)) [
    | yes le ↦ le
    | no gt ↦ absurd (h (L.compare_flip v u (L.compare_minor v u (sym same) (omega arith))))
  ]

  -- A group ahead of the hop's target keeps its own version as the target.
  pub next_group_target-ahead :
      S.compare u v ≡ Ordering.gt → next_group_target S group hop ≡ ok group
  unfolding next_group_target
  next_group_target-ahead gt = rw (compare_versions-ok p q, gt)

  near_behind :
      S.compare u v ≡ Ordering.lt
      → S.minor v ≤ S.minor u + 1
      → next_group_target S group hop ≡ ok hop
  unfolding next_group_target
  near_behind lt near = rw (compare_versions-ok p q, lt, minor_diff-ok p q same, close _ _ near)

  near_level : S.compare u v ≡ Ordering.eq → next_group_target S group hop ≡ ok hop
  unfolding next_group_target
  near_level eq = rw (compare_versions-ok p q, eq)

  -- A group at most one minor version behind, or level, gets the hop's target itself.
  pub next_group_target-near :
      S.compare u v ≢ Ordering.gt
      → S.minor v ≤ S.minor u + 1
      → next_group_target S group hop ≡ ok hop
  next_group_target-near h near = elim (Ordering-cases (S.compare u v)) [
    | inl lt ↦ near_behind lt near
    | inr (inl eq) ↦ near_level eq
    | inr (inr gt) ↦ absurd (h gt)
  ]

  pub next_group_target-far :
      S.minor u + 1 < S.minor v
      → next_group_target S group hop ≡ ok ("v" ++ dotted (S.major u) (S.minor u + 1) 0)
  unfolding next_group_target
  next_group_target-far far =
      rw
        (
          compare_versions-ok p q,
          L.compare_minor u v same (omega arith),
          minor_diff-ok p q same,
          wide _ _ far,
          p.accepted,
        )
        (ap (λ (m : ℕ). ok ("v" ++ dotted (S.major u) m 0)) (omega (arith, q.minor_small)))

  -- Let the version library be as documented, and the group's version and the hop's target be read,
  -- with numbers below 2^63 and one major version. A group that is not ahead of the hop gets a
  -- waypoint: a version that is read, not below its own, at most one minor version up, and not beyond
  -- the hop's target.
  pub next_group_target-IsWaypoint :
      S.compare u v ≢ Ordering.gt
      → (t : String) × (w : S.Version) × (next_group_target S group hop ≡ ok t)
        × Reads S t w
        × IsWaypoint S u v w
  next_group_target-IsWaypoint h = elim (dec_le (S.minor v) (S.minor u + 1)) [
    | yes near ↦ (
      hop,
      v,
      next_group_target-near h near,
      q,
      record {
        no_regress = h;
        no_skip = near;
        no_overshoot = λ e. cc (L.compare_refl v);
        same_major = sym same;
      },
    )
    | no away ↦
        let (w, r, mj, mn, _) =
          Reads-dotted S L (S.major u) (S.minor u + 1) 0 p.major_small
            (omega (arith, q.minor_small)) (omega arith) in
        (
          "v" ++ dotted (S.major u) (S.minor u + 1) 0,
          w,
          next_group_target-far (omega arith),
          r,
          record {
            no_regress = λ e. cc (L.compare_minor u w (sym mj) (omega arith));
            no_skip = omega arith;
            no_overshoot = λ e. cc (L.compare_minor w v (mj ∙ same) (omega arith));
            same_major = mj;
          },
        )
  ]

-- `n` passes over a group that reaches its target each time.
unfoldable pub passes : Semver → ℕ → String → String → Result String
passes S zero group hop = ok group
passes S (suc n) group hop = do t ← next_group_target S group hop; passes S n t hop

-- Let the version library be as documented, and the group's version and the hop's target be read,
-- with numbers below 2^63 and one major version. A group that is not ahead and at most `suc n` minor
-- versions behind is at the hop's target after `suc n` passes, each of which brings it to the target
-- that it is given.
pub passes-arrive :
    {S : Semver} (L : SemverLaws S) {hop : String} {v : S.Version} (q : Reads S hop v) (n : ℕ)
    {group : String} {u : S.Version}
    → Reads S group u
    → S.major u ≡ S.major v
    → S.compare u v ≢ Ordering.gt
    → S.minor v ≤ S.minor u + suc n
    → passes S (suc n) group hop ≡ ok hop
unfolding passes
passes-arrive L q zero p same h near = rw (next_group_target-near L p q same h near)
passes-arrive {S} L {hop} {v} q (suc n) {group} {u} p same h near =
    elim (dec_le (S.minor v) (S.minor u + 1)) [
      | yes close ↦
          rw (next_group_target-near L p q same h close)
            (passes-arrive L q n q refl (λ e. cc (L.compare_refl v)) (omega arith))
      | no away ↦
          let (w, r, mj, mn, _) =
            Reads-dotted S L (S.major u) (S.minor u + 1) 0 p.major_small
              (omega (arith, q.minor_small)) (omega arith) in
          rw (next_group_target-far L p q same (omega arith)) (
            passes-arrive L q n r (mj ∙ same)
              (λ e. cc (L.compare_minor w v (mj ∙ same) (omega arith))) (omega arith))
    ]
