-- ===== src/NodeGroup/Reconcile/Held.antt =====
-- Reconciles of a group that is paused, held, or at its end.
use kubernetes_upgrade_opera.Base.{◌≡◌, refl, ◌⊎◌, inl, inr, Bool, true, false, List, if◌then◌else◌}
use kubernetes_upgrade_opera.Types.{Condition, GroupPhase, NodeGroupUpgrade}
use kubernetes_upgrade_opera.Version.{Semver}
use kubernetes_upgrade_opera.Adapter.{Registry}
use kubernetes_upgrade_opera.Cluster.{Call, Env, update_status, pure}
use kubernetes_upgrade_opera.Cluster.Rules.{
  Any, Ensures, Ensures-pure, Ensures-bind, Ensures-write_status,
}
use kubernetes_upgrade_opera.NodeGroup.Draining.{done}
use kubernetes_upgrade_opera.NodeGroup.Reconcile.{
  needs_reset, by_phase, set_conditions, write_condition, unless_held, reconcile,
}

-- The only call is a write of the group's status in which nothing but the conditions has changed.
abbrev pub OnlyConditions : NodeGroupUpgrade → Call → Type 0
OnlyConditions ng (update_status ng') =
    (conditions : List Condition) × (ng'
      ≡ record ng { status = record ng.status { conditions = conditions } })
OnlyConditions ng _ = ⊥

-- The phases from which no reconcile moves on.
abbrev pub has_ended : GroupPhase → Bool
has_ended GroupPhase.complete = true
has_ended GroupPhase.failed = true
has_ended GroupPhase.paused = true
has_ended _ = false

-- The three guards in front of the switch.
guarded :
    {A : Type 0} (paused held stale : Bool) (out reset next : A)
    → (paused ≡ true) ⊎ (held ≡ true) ⊎ ((next ≡ out) × (stale ≡ false))
    → (if paused then out else if held then out else if stale then reset else next) ≡ out
guarded true held stale out reset next h = refl
guarded false true stale out reset next h = refl
guarded false false stale out reset next (inl e) = absurd cc
guarded false false stale out reset next (inr (inl e)) = absurd cc
guarded false false true out reset next (inr (inr (e, f))) = absurd cc
guarded false false false out reset next (inr (inr (e, f))) = e

module _ (S : Semver) (env : Env) (adapters : Registry) where
  write_condition-OnlyConditions :
      (b : Bool) (ng : NodeGroupUpgrade)
      → Ensures
          (OnlyConditions ng)
          (write_condition S env adapters b (set_conditions S env adapters ng))
          Any
  unfolding write_condition set_conditions
  write_condition-OnlyConditions true ng = Ensures-write_status env _ (_, refl)
  write_condition-OnlyConditions false ng = Ensures-pure _ tt

  ended :
      (phase : GroupPhase) (ng : NodeGroupUpgrade)
      → has_ended phase ≡ true
      → by_phase S env adapters phase ng ≡ pure done
  unfolding by_phase
  ended GroupPhase.unset ng h = absurd cc
  ended GroupPhase.pending ng h = absurd cc
  ended GroupPhase.draining ng h = absurd cc
  ended GroupPhase.upgrading ng h = absurd cc
  ended GroupPhase.verifying ng h = absurd cc
  ended GroupPhase.complete ng h = refl
  ended GroupPhase.failed ng h = refl
  ended GroupPhase.paused ng h = refl
  ended (GroupPhase.other_phase p) ng h = absurd cc

  -- Why a reconcile leaves a group alone.
  abbrev pub LeftAlone : NodeGroupUpgrade → Type 0
  LeftAlone ng =
      (ng.spec.paused ≡ true)
      ⊎ (ng.spec.hold ≡ true)
      ⊎ ((has_ended ng.status.phase ≡ true) × (needs_reset ng ≡ false))

  unless_held-done :
      (ng : NodeGroupUpgrade) → LeftAlone ng → unless_held S env adapters ng ≡ pure done
  unfolding unless_held
  unless_held-done ng alone =
      guarded ng.spec.paused ng.spec.hold (needs_reset ng) _ _ _ (elim alone [
        | inl paused ↦ inl paused
        | inr (inl held) ↦ inr (inl held)
        | inr (inr (e, current)) ↦ inr (inr (ended ng.status.phase ng e, current))
      ])

  -- A group that is paused or held, or that is Complete for its present target, Failed or Paused, is
  -- left alone: a reconcile makes no call but to write its conditions, and asks for no other reconcile.
  pub reconcile-OnlyConditions :
      (ng : NodeGroupUpgrade)
      → LeftAlone ng
      → Ensures (OnlyConditions ng) (reconcile S env adapters ng) (λ out. out ≡ done)
  unfolding reconcile set_conditions
  reconcile-OnlyConditions ng alone = Ensures-bind _ _ (write_condition-OnlyConditions _ ng) (λ _ _.
      rw (unless_held-done (set_conditions S env adapters ng) alone) (Ensures-pure done refl))
