-- ===== src/Children/Supported.antt =====
-- The strategies of ResolveStrategy against the adapters of provider.DefaultRegistry.
use kubernetes_upgrade_opera.Base.{
  ◌≡◌, ◌≢◌, refl, Bool, true, false, Option, none, some, Bool-cases, inl, inr, ap,
}
use kubernetes_upgrade_opera.Types.{
  Role, control_plane, worker, ProviderType, kubeadm, aws_eks, aws_asg, linode_lke, generic,
  other_provider, Strategy, in_place, replace, NodeGroupOverride,
}
use kubernetes_upgrade_opera.Discovery.{DiscoveredGroup}
use kubernetes_upgrade_opera.Cluster.{Env}
use kubernetes_upgrade_opera.Adapter.{Registry, get_adapter}
use kubernetes_upgrade_opera.Kubeadm.Calls.{ExecutorEnv}
use kubernetes_upgrade_opera.Providers.{default_registry}
use kubernetes_upgrade_opera.Children.Laws.{asks_for}
use kubernetes_upgrade_opera.Children.{
  requested_or, default_strategy_for_provider, is_strategy_allowed_for_provider, worker_strategy,
  strategy_of_role, resolve_strategy,
}

-- Whether the registry has an adapter for the provider that supports the strategy.
abbrev pub supported : Registry → ProviderType → Strategy → Bool
supported adapters provider s = elim (get_adapter adapters provider) [
  | none ↦ false
  | some a ↦ a.supports_strategy s
]

abbrev pub is_known : ProviderType → Bool
is_known (other_provider p) = false
is_known _ = true

module _ (executor : ExecutorEnv) (env : Env) where
  by_default :
      (provider : ProviderType)
      → is_known provider ≡ true
      → supported (default_registry executor env) provider (default_strategy_for_provider provider)
        ≡ true
  unfolding default_registry default_strategy_for_provider get_adapter
  by_default kubeadm known = refl
  by_default aws_eks known = refl
  by_default aws_asg known = refl
  by_default linode_lke known = refl
  by_default generic known = refl
  by_default (other_provider p) known = absurd cc

  allowed_or :
      (provider : ProviderType) (asked : Strategy) (ack : Bool)
      → is_known provider ≡ true
      → (provider ≡ kubeadm → asked ≢ replace)
      → is_strategy_allowed_for_provider provider asked ack ≡ true
      → supported (default_registry executor env) provider asked ≡ true
  unfolding default_registry is_strategy_allowed_for_provider get_adapter
  allowed_or kubeadm in_place ack known h e = refl
  allowed_or kubeadm replace ack known h e = absurd (h refl refl)
  allowed_or aws_eks in_place ack known h e = absurd cc
  allowed_or aws_eks replace ack known h e = refl
  allowed_or aws_asg in_place ack known h e = refl
  allowed_or aws_asg replace ack known h e = refl
  allowed_or linode_lke in_place ack known h e = absurd cc
  allowed_or linode_lke replace ack known h e = refl
  allowed_or generic in_place ack known h e = refl
  allowed_or generic replace ack known h e = refl
  allowed_or (other_provider p) asked ack known h e = absurd cc

  by_request :
      (provider : ProviderType) (asked : Option Strategy) (ack : Bool)
      → is_known provider ≡ true
      → (provider ≡ kubeadm → asked ≢ some replace)
      → supported
          (default_registry executor env)
          provider
          (requested_or provider (default_strategy_for_provider provider) asked ack)
        ≡ true
  unfolding requested_or
  by_request provider none ack known h = by_default provider known
  by_request provider (some asked) ack known h =
      elim (Bool-cases (is_strategy_allowed_for_provider provider asked ack)) [
        | inl fine ↦ rw fine (allowed_or provider asked ack known (λ e f. h e (ap some f)) fine)
        | inr not_so ↦ rw not_so (by_default provider known)
      ]

  by_override :
      (provider : ProviderType) (override : Option NodeGroupOverride)
      → is_known provider ≡ true
      → (provider ≡ kubeadm → asks_for override ≢ some replace)
      → supported (default_registry executor env) provider (worker_strategy provider override)
        ≡ true
  unfolding worker_strategy
  by_override provider none known h = by_default provider known
  by_override provider (some override) known h =
      by_request provider override.strategy override.acknowledge_replace_risk known h

  by_role :
      (role : Role) (provider : ProviderType) (override : Option NodeGroupOverride)
      → role ≡ worker
      → is_known provider ≡ true
      → (provider ≡ kubeadm → asks_for override ≢ some replace)
      → supported (default_registry executor env) provider (strategy_of_role role provider override)
        ≡ true
  unfolding strategy_of_role
  by_role control_plane provider override e known h = absurd cc
  by_role worker provider override e known h = by_override provider override known h

  -- The strategy that ResolveStrategy gives a group of workers of one of the five known providers is
  -- supported by the adapter that DefaultRegistry has for the provider, except where the provider is
  -- Kubeadm and the override asks for Replace.
  pub resolve_strategy-supported :
      (group : DiscoveredGroup) (override : Option NodeGroupOverride)
      → group.role ≡ worker
      → is_known group.provider ≡ true
      → (group.provider ≡ kubeadm → asks_for override ≢ some replace)
      → supported (default_registry executor env) group.provider (resolve_strategy group override)
        ≡ true
  unfolding resolve_strategy
  resolve_strategy-supported group override = by_role group.role group.provider override
