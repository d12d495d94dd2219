-- ===== src/Adapter/Quiet.antt =====
-- Adapters whose own calls keep a condition on calls.
use kubernetes_upgrade_opera.Base.{
  Bool, Option, none, some, List, [], ◌∷◌, All, Bool-cases, inl, inr,
}
use kubernetes_upgrade_opera.Core.{Node}
use kubernetes_upgrade_opera.Types.{ProviderType, Strategy, NodeGroupUpgrade}
use kubernetes_upgrade_opera.Cluster.{Call}
use kubernetes_upgrade_opera.Cluster.Rules.{Any, Ensures, Ensures-raise}
use kubernetes_upgrade_opera.Adapter.{Adapter, Registry, same_provider, get_adapter, placeholder}

-- What an adapter does itself satisfies `C` at each call.
pub record Quiet (C : Call → Type 0) (a : Adapter) : Type 0 where
  pub precheck : (ng : NodeGroupUpgrade) → Ensures C (a.precheck ng) Any
  pub begin_batch :
      (ng : NodeGroupUpgrade) (batch : List Node) → Ensures C (a.begin_batch ng batch) Any
  pub poll_batch :
      (ng : NodeGroupUpgrade) (batch : List Node) → Ensures C (a.poll_batch ng batch) Any
  pub verify : (ng : NodeGroupUpgrade) → Ensures C (a.verify ng) Any

-- Every adapter of the registry is quiet.
abbrev pub AllQuiet : (Call → Type 0) → Registry → Type 0
AllQuiet C adapters = All (λ (entry : ProviderType × Adapter). Quiet C entry.1) adapters

abbrev pub QuietIf : (Call → Type 0) → Option Adapter → Type 0
QuietIf C none = Unit
QuietIf C (some a) = Quiet C a

pub get_adapter-Quiet :
    (C : Call → Type 0) (adapters : Registry) (t : ProviderType)
    → AllQuiet C adapters
    → QuietIf C (get_adapter adapters t)
unfolding get_adapter
get_adapter-Quiet C [] t quiet = tt
get_adapter-Quiet C ((u, a) ∷ adapters) t quiet = elim (Bool-cases (same_provider u t)) [
  | inl same ↦ rw same quiet.0
  | inr differ ↦ rw differ (get_adapter-Quiet C adapters t quiet.1)
]

-- An adapter that only reports ErrNotImplemented is quiet.
pub placeholder-Quiet :
    (C : Call → Type 0) (t : ProviderType) (supports : Strategy → Bool)
    → Quiet C (placeholder t supports)
placeholder-Quiet C t supports = record {
  precheck = λ ng. Ensures-raise _;
  begin_batch = λ ng batch. Ensures-raise _;
  poll_batch = λ ng batch. Ensures-raise _;
  verify = λ ng. Ensures-raise _;
}
