-- ===== src/Upgrade/Course/InRange.antt =====
-- The place in the plan is in range in every phase that looks a hop up.
use kubernetes_upgrade_opera.Base.{
  ℕ, zero, suc, ◌^◌, ◌≤◌, ◌<◌, ℤ, pos, negsuc, ◌+ℤ◌, ltb_ℤ, int32, Bool, true, false, List, [], ◌∷◌,
  length, ◌≡◌, refl, ◌⊎◌, inl, inr, arith,
}
use kubernetes_upgrade_opera.Result.{ok}
use kubernetes_upgrade_opera.Core.{Time}
use kubernetes_upgrade_opera.Types.{UpgradePhase, KubernetesUpgradeSpec}
use kubernetes_upgrade_opera.Version.{Semver}
use kubernetes_upgrade_opera.StepPlan.{UpgradeStep}
use kubernetes_upgrade_opera.Upgrade.Status.{step_at}
use kubernetes_upgrade_opera.Upgrade.Postchecks.{complete_at, complete_step}
use kubernetes_upgrade_opera.Upgrade.Course.{
  Course, Guards, Planned, planned, Step, waits, begins, plans, has_no_hops, has_no_plan, discovers,
  checks_control_plane, checks_workers, control_plane_done, workers_done, fails, repeats, advances,
  finishes,
}

-- The phases that do not look a hop up before they have a plan.
abbrev pub needs_no_hop : UpgradePhase → Bool
needs_no_hop UpgradePhase.prechecks = false
needs_no_hop UpgradePhase.control_plane_upgrade = false
needs_no_hop UpgradePhase.workers_upgrade = false
needs_no_hop UpgradePhase.postchecks = false
needs_no_hop _ = true

-- There is a hop at the place, or there is no plan yet and the phase needs none.
abbrev pub HasHop : Course → Type 0
HasHop c = (s : UpgradeStep) × (step_at c.plan c.place ≡ ok s)

abbrev pub InRange : Course → Type 0
InRange c = ((c.plan ≡ []) × (needs_no_hop c.phase ≡ true)) ⊎ HasHop c

length-complete_at :
    (t : Time) (i : ℕ) (steps : List UpgradeStep) → length (complete_at t i steps) ≡ length steps
length-complete_at t zero [] = refl
length-complete_at t (suc i) [] = refl
length-complete_at t zero (s ∷ steps) = refl
length-complete_at t (suc i) (s ∷ steps) = omega (arith, length-complete_at t i steps)

step_at-below :
    (steps : List UpgradeStep) (i : ℕ)
    → i < length steps
    → (s : UpgradeStep) × (step_at steps (pos i) ≡ ok s)
unfolding step_at
step_at-below [] i h = absurd (omega arith)
step_at-below (s ∷ steps) zero h = (s, refl)
step_at-below (s ∷ steps) (suc i) h = step_at-below steps i (omega arith)

below-step_at :
    (steps : List UpgradeStep) (i : ℕ) (s : UpgradeStep)
    → step_at steps (pos i) ≡ ok s
    → i < length steps
unfolding step_at
below-step_at [] i s e = absurd cc
below-step_at (r ∷ steps) zero s e = omega arith
below-step_at (r ∷ steps) (suc i) s e = let h = below-step_at steps i s e in omega arith

int32_next : (i n : ℕ) → suc i < n → n ≤ 2 ^ 31 → int32 (pos i +ℤ pos 1) ≡ pos (suc i)
unfolding int32 ◌+ℤ◌
int32_next i n h k = ground arith

next_below : (i n : ℕ) → ltb_ℤ (pos i +ℤ pos 1) (pos n) ≡ true → suc i < n
unfolding ◌+ℤ◌
next_below i n h = ground arith

-- The completed hop is still there.
HasHop-complete_step :
    (t : Time) (i : ℤ) (steps : List UpgradeStep) (s : UpgradeStep)
    → step_at steps i ≡ ok s
    → (r : UpgradeStep) × (step_at (complete_step t i steps) i ≡ ok r)
unfolding complete_step
HasHop-complete_step t (pos i) steps s e =
    step_at-below (complete_at t i steps) i
      (let h = below-step_at steps i s e in omega (arith, length-complete_at t i steps))
HasHop-complete_step t (negsuc i) steps s e = (s, e)

no_negative :
    (i : ℕ) (steps : List UpgradeStep) (s : UpgradeStep) → step_at steps (negsuc i) ≡ ok s → ⊥
unfolding step_at
no_negative i steps s e = cc

HasHop-next :
    (t : Time) (i : ℤ) (steps : List UpgradeStep) (s : UpgradeStep)
    → step_at steps i ≡ ok s
    → ltb_ℤ (i +ℤ pos 1) (pos (length (complete_step t i steps))) ≡ true
    → length (complete_step t i steps) ≤ 2 ^ 31
    → (r : UpgradeStep) × (step_at (complete_step t i steps) (int32 (i +ℤ pos 1)) ≡ ok r)
HasHop-next t (pos i) steps s e h k =
    let below = next_below i (length (complete_step t (pos i) steps)) h in
    rw (int32_next i (length (complete_step t (pos i) steps)) below k)
      (step_at-below (complete_step t (pos i) steps) (suc i) below)
HasHop-next t (negsuc i) steps s e h k = absurd (no_negative i steps s e)

module _ (S : Semver) (spec : KubernetesUpgradeSpec) where
  Planned-InRange :
      (guards : Guards) (before after : Course) → Planned S spec guards before after → InRange after
  unfolding step_at
  Planned-InRange guards before after (planned starting s steps bare known e) = inr (s, refl)

  -- A course in a phase that looks a hop up has one.
  pub InRange-HasHop :
      (c : Course) (phase : UpgradePhase)
      → c.phase ≡ phase
      → needs_no_hop phase ≡ false
      → InRange c
      → HasHop c
  InRange-HasHop c phase e f (inl (p, q)) = absurd (cc (rw e at q))
  InRange-HasHop c phase e f (inr hop) = hop

  -- Each step keeps the place in range, for plans that an int32 can count.
  pub Step-InRange :
      (guards : Guards) (before after : Course)
      → Step S spec guards before after
      → length after.plan ≤ 2 ^ 31
      → InRange before
      → InRange after
  Step-InRange guards before after (waits e p) k r = r
  Step-InRange guards before after (begins e) k (inl (p, q)) = inl (p, refl)
  Step-InRange guards before after (begins e) k (inr hop) = inr hop
  Step-InRange guards before after (plans _ e p) k r = Planned-InRange guards before after p
  Step-InRange guards before after (has_no_hops starting e bare known p) k r = inl (refl, refl)
  Step-InRange guards before after (has_no_plan starting f e bare known q) k (inl (a, b)) =
      inl (a, refl)
  Step-InRange guards before after (has_no_plan starting f e bare known q) k (inr hop) = inr hop
  Step-InRange guards before after (discovers c s e p q) k r = inr (s, q)
  Step-InRange guards before after (checks_control_plane e p) k r =
      inr (InRange-HasHop before UpgradePhase.prechecks e refl r)
  Step-InRange guards before after (checks_workers e p q) k r =
      inr (InRange-HasHop before UpgradePhase.prechecks e refl r)
  Step-InRange guards before after (control_plane_done e p) k r =
      inr (InRange-HasHop before UpgradePhase.control_plane_upgrade e refl r)
  Step-InRange guards before after (workers_done e p) k r =
      inr (InRange-HasHop before UpgradePhase.workers_upgrade e refl r)
  Step-InRange guards before after (fails (inl e) p) k r =
      inr (InRange-HasHop before UpgradePhase.control_plane_upgrade e refl r)
  Step-InRange guards before after (fails (inr e) p) k r =
      inr (InRange-HasHop before UpgradePhase.workers_upgrade e refl r)
  Step-InRange guards before after (repeats s e p q) k r =
      inr (InRange-HasHop before UpgradePhase.postchecks e refl r)
  Step-InRange guards before after (advances t s e p q h) k r =
      inr (HasHop-next t before.place before.plan s p h k)
  Step-InRange guards before after (finishes t s e p q h) k r =
      inr (HasHop-complete_step t before.place before.plan s p)
