-- ===== src/NodeGroup/Draining/Keeps.antt =====
-- reconcileDraining of nodegroupupgrade_draining.go and the invariant of a group.
use kubernetes_upgrade_opera.Base.{
  ℕ, ◌-◌, pos_part, ◌≤◌, ℤ, pos, negsuc, ◌≤ℤ◌, String, ◌≡◌, refl, true, Option, List, [], ◌∷◌, All,
  length, arith, sym, ◌∙◌, ap,
}
use kubernetes_upgrade_opera.Result.{Result, ok, err}
use kubernetes_upgrade_opera.Batches.{IntOrString, Scaled, Flags, next_batch}
use kubernetes_upgrade_opera.Batches.Limit.{resolve_concurrency-bounds, resolve_concurrency-nonneg}
use kubernetes_upgrade_opera.Batches.Selection.{
  next_batch-ok, next-eq-take, length-next, take-eq-nil,
}
use kubernetes_upgrade_opera.NodeGroup.Progress.Marks.{none_left, active_flags-idle}
use kubernetes_upgrade_opera.Types.{
  GroupPhase, NodeProgress, NodeGroupUpgrade, NodeGroupUpgradeSpec,
}
use kubernetes_upgrade_opera.Cluster.{Env}
use kubernetes_upgrade_opera.Cluster.Rules.{
  Post, Any, Ensures, Ensures-pure, Ensures-lift, Ensures-bind, Ensures-write_status, Ensures-now,
}
use kubernetes_upgrade_opera.NodeGroup.Progress.{
  active_batch, with_progress, with_phase, done_flags, next_batch_for,
}
use kubernetes_upgrade_opera.NodeGroup.Progress.Changes.{entry_names, Distinct}
use kubernetes_upgrade_opera.NodeGroup.Progress.Counts.{
  is_completed, active_count, length-active_batch,
}
use kubernetes_upgrade_opera.NodeGroup.Invariant.{Within, underway, Writes, Running, Running-Writes}
use kubernetes_upgrade_opera.NodeGroup.Draining.{begin_next, on_active, reconcile_draining}
use kubernetes_upgrade_opera.NodeGroup.Draining.Batch.{Grown, start_all-Grown, drain_batch-Writes}

-- What an empty list of active names says of the counts.
idle : (progress : List NodeProgress) → active_batch progress ≡ [] → active_count progress ≡ 0
idle progress h = sym (length-active_batch progress) ∙ ap (length {A = String}) h

within_of : (n : ℕ) (limit : ℤ) → pos 0 ≤ℤ limit → n ≤ pos_part limit → pos n ≤ℤ limit
within_of n (pos m) nonneg h = ground (arith, nonneg, h)
within_of n (negsuc m) nonneg h = ground (arith, nonneg, h)

-- With no active entry, starting the next batch keeps the limit.
started-Within :
    (scaled : Scaled) (spec : NodeGroupUpgradeSpec) (before after : List NodeProgress)
    (next : List String) (done : Flags)
    → active_batch before ≡ []
    → next_batch scaled spec.nodes done [] spec.batch_size spec.max_unavailable ≡ ok next
    → Grown (length next) before after
    → Within scaled spec (active_count after)
started-Within scaled spec before after next done none_active chosen grown limit e =
    within_of (active_count after) limit
      (resolve_concurrency-nonneg scaled (length spec.nodes) spec.batch_size spec.max_unavailable e)
      (omega (
        arith,
        grown.active,
        idle before none_active,
        length-next scaled spec.nodes done [] spec.batch_size spec.max_unavailable chosen e,
      ))

-- With no active entry and no next batch, every entry is completed.
nothing_left :
    (scaled : Scaled) (progress : List NodeProgress) (batch_size : Option ℤ)
    (max_unavailable : Option IntOrString)
    → Distinct (entry_names progress)
    → next_batch scaled
        (entry_names progress)
        (done_flags progress [])
        []
        batch_size
        max_unavailable
      ≡ ok []
    → All (λ np. is_completed np ≡ true) progress
nothing_left scaled [] batch_size max_unavailable d chosen = tt
nothing_left scaled (np ∷ progress) batch_size max_unavailable d chosen =
    let nodes = entry_names (np ∷ progress) in
    let flags = done_flags (np ∷ progress) [] in
    let (limit, e) = next_batch-ok scaled nodes flags [] batch_size max_unavailable chosen in
    none_left (np ∷ progress) d (
      take-eq-nil (pos_part limit - 0) _
        (omega (
          arith,
          resolve_concurrency-bounds scaled (length (entry_names progress)) batch_size
              max_unavailable e,
        ))
        (sym (next-eq-take scaled nodes flags [] batch_size max_unavailable chosen e)))

-- A result that returns a value is that value.
itself : {A : Type 0} (r : Result A) → Post (λ a. r ≡ ok a) r
itself (ok a) = refl
itself (err e) = tt

next_batch_idle :
    {scaled own : Scaled} {spec : NodeGroupUpgradeSpec} {ng : NodeGroupUpgrade} {next : List String}
    → own ≡ scaled
    → Running scaled spec ng
    → active_batch ng.status.node_progress ≡ []
    → next_batch_for own ng ≡ ok next
    → next_batch scaled spec.nodes
        (done_flags ng.status.node_progress [])
        []
        spec.batch_size
        spec.max_unavailable
      ≡ ok next
unfolding next_batch_for
next_batch_idle {own} {ng} same r e chosen =
    rw (sym same, sym r.same_spec)
      (sym (
          ap
            (λ active.
              next_batch own ng.spec.nodes (done_flags ng.status.node_progress []) active
                ng.spec.batch_size ng.spec.max_unavailable)
            (active_flags-idle ng.status.node_progress [] e))
        ∙ chosen)

module _ {scaled : Scaled} {spec : NodeGroupUpgradeSpec} (env : Env)
    (distinct : Distinct spec.nodes) where
  begin_next-Writes :
      (ng : NodeGroupUpgrade) (next : List String)
      → Running scaled spec ng
      → active_batch ng.status.node_progress ≡ []
      → next_batch scaled spec.nodes
          (done_flags ng.status.node_progress [])
          []
          spec.batch_size
          spec.max_unavailable
        ≡ ok next
      → Ensures (Writes scaled spec) (begin_next env ng next) Any
  unfolding begin_next
  begin_next-Writes ng [] r none_active chosen =
      Ensures-bind _ _
        (Ensures-write_status env (with_phase ng GroupPhase.complete)
          (r.same_spec, underway (rw r.same_spec r.tracked) refl (λ _. all_done)))
        (λ _ _. Ensures-pure _ tt)
    where
      all_done : All (λ np. is_completed np ≡ true) ng.status.node_progress
      all_done =
          nothing_left scaled ng.status.node_progress spec.batch_size spec.max_unavailable
            (rw r.tracked.named distinct) (rw r.tracked.named chosen)
  begin_next-Writes ng (n ∷ next) r none_active chosen =
      Ensures-bind _ _ (Ensures-now env tt) (λ t _.
        Ensures-bind _ _ (start_all-Grown env t (n ∷ next) ng.status.node_progress)
          (λ progress grown.
            Ensures-bind _ _
              (Ensures-write_status env (with_progress ng progress)
                (Running-Writes (grow progress grown)))
              (λ _ _.
                drain_batch-Writes env (with_progress ng progress) (n ∷ next)
                  (grow progress grown))))
    where
      grow :
          (progress : List NodeProgress)
          → Grown (length (n ∷ next)) ng.status.node_progress progress
          → Running scaled spec (with_progress ng progress)
      grow progress grown = record {
        same_spec = r.same_spec;
        tracked = record {
          named = grown.names ∙ r.tracked.named;
          within =
              started-Within scaled spec ng.status.node_progress progress (n ∷ next) _ none_active
                chosen grown;
          counted = rw grown.done r.tracked.counted;
        };
        unfinished = r.unfinished;
      }

  on_active-Writes :
      (ng : NodeGroupUpgrade) (active : List String)
      → env.scaled ≡ scaled
      → Running scaled spec ng
      → active_batch ng.status.node_progress ≡ active
      → Ensures (Writes scaled spec) (on_active env ng active) Any
  unfolding on_active
  on_active-Writes ng [] same r e =
      Ensures-bind _ _
        (Ensures-lift {Q = λ next. next_batch_for env.scaled ng ≡ ok next} _ (itself _))
        (λ next chosen. begin_next-Writes ng next r e (next_batch_idle same r e chosen))
  on_active-Writes ng (n ∷ active) same r e = drain_batch-Writes env ng (n ∷ active) r

  pub reconcile_draining-Writes :
      (ng : NodeGroupUpgrade)
      → env.scaled ≡ scaled
      → Running scaled spec ng
      → Ensures (Writes scaled spec) (reconcile_draining env ng) Any
  unfolding reconcile_draining
  reconcile_draining-Writes ng same r = on_active-Writes ng _ same r refl
