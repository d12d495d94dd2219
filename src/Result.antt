-- ===== src/Result.antt =====
-- Go's `error` values, as far as the program tells them apart, and the results that carry them.
--
-- An error of the program's own keeps the place that made it and what it names. A wrapped error
-- (`%w`) keeps the inner one, since `errors.Is` looks through the wrapping. The texts of messages
-- and the details of third-party errors are not kept.
use kubernetes_upgrade_opera.Base.{ℕ, ℤ, String, Bool, true, false, ◌||◌}

-- The classes of an API server's error that the program tests (`apierrors.IsNotFound` and so on).
pub data ApiError : Type 0 where
  not_found already_exists conflict too_many_requests other : ApiError

pub data Error : Type 0 where
  -- pkg/k8sutil/version.go
  parsing_version : String → Error
  major_change : ℕ → ℕ → Error
  kubelet_newer : String → String → Error
  kubelet_behind : String → String → Error
  -- pkg/upgrade
  downgrade_refused : String → String → Error
  resolving_max_unavailable : Error
  parsing_node_selector : Error
  no_known_version : String → Error
  no_group_version : Error
  -- the webhook: the target is so many minor versions ahead
  too_far_ahead : String → ℤ → Error
  -- pkg/checksums, pkg/k8sutil/health.go and pkg/provider/kubeadm
  no_checksums : String → String → Error
  no_etcd_version : Error
  no_rest_config : Error
  job_not_found : String → Error
  job_failed : String → Error
  -- an error of the API server, and of the cluster's discovery endpoint
  api : ApiError → Error
  server_version : Error
  -- a Go run-time panic
  go_panic : Error
  -- provider.ErrNotImplemented
  not_implemented : Error
  -- `errors.Join` of what a loop collected; the empty join is no error
  joined : Error → Error → Error
  -- `fmt.Errorf("<doing something> %q: %w", name, err)`
  wrapped : String → Error → Error

pub data Result {ℓ} (A : Type ℓ) : Type ℓ where
  ok : A → Result A
  err : Error → Result A

-- `if err != nil { return …, err }`, and then what follows
infixl 5 ◌>>=◌ ◌>>◌
abbrev pub ◌>>=◌ {ℓ κ} : {A : Type ℓ} {B : Type κ} → Result A → (A → Result B) → Result B
err failure >>= next = err failure
ok value >>= next = next value

abbrev pub ◌>>◌ {ℓ} : {B : Type ℓ} → Result (Unit {0}) → Result B → Result B
checked >> next = checked >>= λ _. next

-- `if err != nil { return fmt.Errorf("…: %w", err) }`
abbrev pub context {ℓ} : {A : Type ℓ} → String → Result A → Result A
context w (ok a) = ok a
context w (err e) = err (wrapped w e)

-- errors.Is(err, provider.ErrNotImplemented)
unfoldable pub is_not_implemented : Error → Bool
is_not_implemented not_implemented = true
is_not_implemented (wrapped w e) = is_not_implemented e
is_not_implemented (joined d e) = is_not_implemented d || is_not_implemented e
is_not_implemented _ = false
