-- ===== src/Children/Laws.antt =====
-- Which strategies a group can get, and which children can be deleted.
use kubernetes_upgrade_opera.Base.{
  String, str_eq, ◌≡◌, ◌≢◌, refl, Bool, true, false, ◌||◌, Option, none, some, List, [], ◌∷◌, ◌⊎◌,
  inl, inr, arith, All, All-imp, Bool-cases, if◌then◌else◌, eq_iff, sym, ◌∙◌,
}
use mathlib.Core.List.{Memᴰ}
use mathlib.Core.List.Memᴰ.{head, tail}
use kubernetes_upgrade_opera.Types.{
  Role, control_plane, worker, ProviderType, kubeadm, aws_eks, aws_asg, linode_lke, generic,
  other_provider, Strategy, in_place, replace, NodeGroupOverride, GroupPhase,
}
use kubernetes_upgrade_opera.Batches.{Flags, flag, set_flag}
use kubernetes_upgrade_opera.Batches.Flagged.{flag-set_flag}
use kubernetes_upgrade_opera.Discovery.{DiscoveredGroup}
use kubernetes_upgrade_opera.Children.{
  requested_or, worker_strategy, default_strategy_for_provider, is_strategy_allowed_for_provider,
  resolve_strategy, ExistingChild, is_safe_to_prune, desired_names, pruned, prune_candidates,
}

-- The strategy that an override asks for.
abbrev pub asks_for : Option NodeGroupOverride → Option Strategy
asks_for none = none
asks_for (some override) = override.strategy

-- Whether an override accepts that a generic node is deleted.
abbrev pub accepts_risk : Option NodeGroupOverride → Bool
accepts_risk none = false
accepts_risk (some override) = override.acknowledge_replace_risk

-- What ResolveStrategy may return: a control-plane group is upgraded in place, a managed one (EKS,
-- LKE) of workers replaced, and a generic one of workers replaced only where the override asks for it
-- and accepts the risk.
abbrev pub Safe : Role → ProviderType → Option NodeGroupOverride → Strategy → Type 0
Safe control_plane provider override s = s ≡ in_place
Safe worker aws_eks override s = s ≡ replace
Safe worker linode_lke override s = s ≡ replace
Safe worker generic override s =
    (s ≡ in_place) ⊎ ((asks_for override ≡ some replace) × (accepts_risk override ≡ true))
Safe worker provider override s = Unit

generic_strategy :
    (override : NodeGroupOverride) (asked : Option Strategy)
    → override.strategy ≡ asked
    → Safe worker generic
        (some override)
        (requested_or generic in_place asked override.acknowledge_replace_risk)
unfolding requested_or is_strategy_allowed_for_provider
generic_strategy override none e = inl refl
generic_strategy override (some in_place) e = inl refl
generic_strategy override (some replace) e = accepted override.acknowledge_replace_risk refl
  where
    accepted :
        (ack : Bool)
        → override.acknowledge_replace_risk ≡ ack
        → ((if ack then replace else in_place) ≡ in_place)
          ⊎ ((override.strategy ≡ some replace) × (override.acknowledge_replace_risk ≡ true))
    accepted true a = inr (e, a)
    accepted false a = inl refl

managed_eks :
    (asked : Option Strategy) (ack : Bool) → requested_or aws_eks replace asked ack ≡ replace
unfolding requested_or is_strategy_allowed_for_provider
managed_eks none ack = refl
managed_eks (some in_place) ack = refl
managed_eks (some replace) ack = refl

managed_lke :
    (asked : Option Strategy) (ack : Bool) → requested_or linode_lke replace asked ack ≡ replace
unfolding requested_or is_strategy_allowed_for_provider
managed_lke none ack = refl
managed_lke (some in_place) ack = refl
managed_lke (some replace) ack = refl

worker-Safe :
    (provider : ProviderType) (override : Option NodeGroupOverride)
    → Safe worker provider override (worker_strategy provider override)
unfolding worker_strategy default_strategy_for_provider
worker-Safe aws_eks none = refl
worker-Safe aws_eks (some o) = managed_eks o.strategy o.acknowledge_replace_risk
worker-Safe linode_lke none = refl
worker-Safe linode_lke (some o) = managed_lke o.strategy o.acknowledge_replace_risk
worker-Safe generic none = inl refl
worker-Safe generic (some o) = generic_strategy o o.strategy refl
worker-Safe kubeadm override = tt
worker-Safe aws_asg override = tt
worker-Safe (other_provider p) override = tt

role-Safe :
    (group : DiscoveredGroup) (role : Role) (override : Option NodeGroupOverride)
    → group.role ≡ role
    → Safe role group.provider override (resolve_strategy group override)
unfolding resolve_strategy
role-Safe group control_plane override e = rw e refl
role-Safe group worker override e = rw e (worker-Safe group.provider override)

-- Whatever the override asks for, the strategy of a control-plane group is InPlace; that of an EKS or
-- LKE group of workers is Replace; and that of a generic group of workers is InPlace, unless the
-- override asks for Replace and acknowledges the risk.
pub resolve_strategy-Safe :
    (group : DiscoveredGroup) (override : Option NodeGroupOverride)
    → Safe group.role group.provider override (resolve_strategy group override)
resolve_strategy-Safe group override = role-Safe group group.role override refl

-- Some desired group has the name.
unfoldable is_desired : List DiscoveredGroup → String → Bool
is_desired [] n = false
is_desired (d ∷ desired) n = str_eq d.name n || is_desired desired n

flag-desired_names :
    (desired : List DiscoveredGroup) (m : Flags) (n : String)
    → flag (desired_names desired m) n ≡ (flag m n || is_desired desired n)
unfolding desired_names is_desired
flag-desired_names [] m n = ground arith
flag-desired_names (d ∷ desired) m n =
    ground (arith, flag-desired_names desired (set_flag m d.name) n, flag-set_flag m d.name n)

undesired :
    (desired : List DiscoveredGroup) (n : String)
    → is_desired desired n ≡ false
    → All (λ (d : DiscoveredGroup). d.name ≢ n) desired
unfolding is_desired
undesired [] n h = tt
undesired (d ∷ desired) n h =
    (ground (arith, h, eq_iff d.name n), undesired desired n (ground (arith, h)))

-- What makes a child's name fit to be deleted.
pub record Deletable (desired : List DiscoveredGroup) (existing : List ExistingChild) (n : String)
    : Type 0 where
  pub child : ExistingChild
  pub exists : Memᴰ child existing
  pub named : child.name ≡ n
  pub gone : All (λ (d : DiscoveredGroup). d.name ≢ n) desired
  pub at_rest :
      (child.phase ≡ GroupPhase.unset)
      ⊎ (child.phase ≡ GroupPhase.pending)
      ⊎ (child.phase ≡ GroupPhase.complete)

settled_phase :
    (phase : GroupPhase)
    → is_safe_to_prune phase ≡ true
    → (phase ≡ GroupPhase.unset) ⊎ (phase ≡ GroupPhase.pending) ⊎ (phase ≡ GroupPhase.complete)
unfolding is_safe_to_prune
settled_phase GroupPhase.unset h = inl refl
settled_phase GroupPhase.pending h = inr (inl refl)
settled_phase GroupPhase.complete h = inr (inr refl)
settled_phase GroupPhase.draining h = cc
settled_phase GroupPhase.upgrading h = cc
settled_phase GroupPhase.verifying h = cc
settled_phase GroupPhase.failed h = cc
settled_phase GroupPhase.paused h = cc
settled_phase (GroupPhase.other_phase p) h = cc

later :
    {desired : List DiscoveredGroup} {existing : List ExistingChild} (e : ExistingChild)
    (n : String)
    → Deletable desired existing n
    → Deletable desired (e ∷ existing) n
later e n d = record {
  child = d.child;
  exists = tail d.exists;
  named = d.named;
  gone = d.gone;
  at_rest = d.at_rest;
}

pruned-Deletable :
    (desired : List DiscoveredGroup) (existing : List ExistingChild)
    → All (Deletable desired existing) (pruned (desired_names desired []) existing)
unfolding pruned flag
pruned-Deletable desired [] = tt
pruned-Deletable desired (e ∷ existing) =
    let rest = All-imp (later e) _ (pruned-Deletable desired existing) in
    elim (Bool-cases (flag (desired_names desired []) e.name)) [
      | inl wanted ↦ rw wanted rest
      | inr unwanted ↦ elim (Bool-cases (is_safe_to_prune e.phase)) [
        | inr busy ↦ rw (unwanted, busy) rest
        | inl safe ↦ rw (unwanted, safe) (found unwanted safe, rest)
      ]
    ]
  where
    found :
        flag (desired_names desired []) e.name ≡ false
        → is_safe_to_prune e.phase ≡ true
        → Deletable desired (e ∷ existing) e.name
    found unwanted safe = record {
      child = e;
      exists = head refl;
      named = refl;
      gone = undesired desired e.name (sym (flag-desired_names desired [] e.name) ∙ unwanted);
      at_rest = settled_phase e.phase safe;
    }

-- Every name that PruneCandidates returns is that of an existing child which no discovered group is
-- named like, and which has not started, is Pending, or is Complete.
pub prune_candidates-Deletable :
    (desired : List DiscoveredGroup) (existing : List ExistingChild)
    → All (Deletable desired existing) (prune_candidates desired existing)
unfolding prune_candidates
prune_candidates-Deletable desired existing = pruned-Deletable desired existing
