-- ===== src/Drain/Emptied.antt =====
-- Which pods a drain pass evicts, and what it means that none remains.
use kubernetes_upgrade_opera.Base.{
  ◌+◌, String, ◌≡◌, ◌≢◌, refl, ap, ◌⊎◌, inl, inr, ◌∙◌, Bool, true, false, not, ◌&&◌, Option, none,
  some, List, [], ◌∷◌, ◌++◌, if◌then◌else◌, arith, All,
}
use kubernetes_upgrade_opera.Result.{
  ApiError, not_found, already_exists, conflict, too_many_requests, other, Error, Result, ok, err,
}
use kubernetes_upgrade_opera.Core.{Pod, PodPhase}
use kubernetes_upgrade_opera.Cluster.{
  Call, evict, Env, History, Answer, found, refused, of_answer, read_pods, create_eviction,
}
use kubernetes_upgrade_opera.Cluster.Rules.{
  Post, Any, Ensures, Ensures-pure, Ensures-lift, Ensures-in_context, Ensures-bind, Any-calls,
}
use kubernetes_upgrade_opera.Drain.{
  DrainOptions, DrainState, evicting, blocked, skipped, PodStatus, remaining, has_terminated,
  is_mirror_pod, is_daemon_set_pod, uses_empty_dir, settled, status_of, after_eviction, finish,
  drain_pod, drain_pods, drain_node,
}
use kubernetes_upgrade_opera.Drain.Laws.{drain_node-calls}

-- A pod that a drain may evict under the group's policy.
pub record Evictable (opts : DrainOptions) (pod : Pod) : Type 0 where
  pub alive : (pod.phase ≢ PodPhase.succeeded) × (pod.phase ≢ PodPhase.failed)
  pub not_mirror : is_mirror_pod pod ≡ false
  pub daemon_set : (opts.ignore_daemon_sets && is_daemon_set_pod pod) ≡ false
  pub empty_dir : (not opts.delete_empty_dir_data && uses_empty_dir pod) ≡ false
  pub not_deleted : pod.deletion_timestamp ≡ none

-- Every eviction is that of an evictable pod.
abbrev pub EvictsEvictable : DrainOptions → Call → Type 0
EvictsEvictable opts (evict pod) = Evictable opts pod
EvictsEvictable opts _ = Unit

alive_phase :
    (phase : PodPhase)
    → has_terminated phase ≡ false
    → (phase ≢ PodPhase.succeeded) × (phase ≢ PodPhase.failed)
alive_phase PodPhase.pending h = (λ e. cc, λ e. cc)
alive_phase PodPhase.running h = (λ e. cc, λ e. cc)
alive_phase PodPhase.succeeded h = absurd cc
alive_phase PodPhase.failed h = absurd cc
alive_phase PodPhase.unknown h = (λ e. cc, λ e. cc)

-- What the guards leave over.
unsettled :
    (opts : DrainOptions) (pod : Pod)
    → settled opts pod ≡ none
    → (has_terminated pod.phase ≡ false)
      × (is_mirror_pod pod ≡ false)
      × ((opts.ignore_daemon_sets && is_daemon_set_pod pod) ≡ false)
      × ((not opts.delete_empty_dir_data && uses_empty_dir pod) ≡ false)
      × (pod.deletion_timestamp ≡ none)
unfolding settled
unsettled opts pod h =
    go (has_terminated pod.phase) (is_mirror_pod pod)
      (opts.ignore_daemon_sets && is_daemon_set_pod pod)
      (not opts.delete_empty_dir_data && uses_empty_dir pod) pod.deletion_timestamp h
  where
    go :
        {A : Type 0} (a b c d : Bool) (t : Option A)
        → (if a
            then some skipped
            else if b
            then some skipped
            else if c
            then some skipped
            else if d
            then some blocked
            else elim t [ none ↦ none | some _ ↦ some evicting ])
          ≡ none
        → (a ≡ false) × (b ≡ false) × (c ≡ false) × (d ≡ false) × (t ≡ none)
    go true b c d t h = absurd cc
    go false true c d t h = absurd cc
    go false false true d t h = absurd cc
    go false false false true t h = absurd cc
    go false false false false (some x) h = absurd cc
    go false false false false none h = (refl, refl, refl, refl, refl)

unsettled-Evictable :
    (opts : DrainOptions) (pod : Pod) → settled opts pod ≡ none → Evictable opts pod
unsettled-Evictable opts pod h =
    let (a, b, c, d, t) = unsettled opts pod h in
    record {
      alive = alive_phase pod.phase a;
      not_mirror = b;
      daemon_set = c;
      empty_dir = d;
      not_deleted = t;
    }

-- Whatever the cluster answers, a drain pass evicts only evictable pods: not terminated, no static
-- pod, no DaemonSet's pod where these are ignored, no pod with an emptyDir where its data is to be
-- kept, and none that is being deleted already.
pub drain_node-Evictable :
    (env : Env) (opts : DrainOptions) (name : String)
    → Ensures (EvictsEvictable opts) (drain_node env opts name) Any
drain_node-Evictable env opts name = drain_node-calls env opts name tt (unsettled-Evictable opts)

-- A pod that no longer stands in the way: one that a drain leaves alone, or whose eviction was
-- answered with NotFound.
abbrev pub Left : Env → DrainOptions → Pod → Type 0
Left env opts pod =
    (settled opts pod ≡ some skipped) ⊎ ((h : History) × (env.evict_reply h pod ≡ some not_found))

-- Some listing of the node's pods had only such pods.
abbrev pub Emptied : Env → DrainOptions → String → Type 0
Emptied env opts name =
    (h : History) × (pods : List Pod) × (env.pods_at h name ≡ found pods) × All (Left env opts) pods

remaining-append : (ps qs : List PodStatus) → remaining (ps ++ qs) ≡ remaining ps + remaining qs
unfolding remaining
remaining-append [] qs = omega arith
remaining-append (p ∷ ps) qs = ground (arith, remaining-append ps qs)

module _ (env : Env) (opts : DrainOptions) where
  evicted-Left :
      (pod : Pod) (h : History) (reply : Option ApiError)
      → env.evict_reply h pod ≡ reply
      → remaining (after_eviction pod reply).0 ≡ 0
      → Left env opts pod
  unfolding remaining after_eviction
  evicted-Left pod h (some not_found) e z = inr (h, e)
  evicted-Left pod h none e z = absurd (omega (arith, z))
  evicted-Left pod h (some already_exists) e z = absurd (omega (arith, z))
  evicted-Left pod h (some conflict) e z = absurd (omega (arith, z))
  evicted-Left pod h (some too_many_requests) e z = absurd (omega (arith, z))
  evicted-Left pod h (some other) e z = absurd (omega (arith, z))

  settled-Left :
      (pod : Pod) (state : DrainState)
      → settled opts pod ≡ some state
      → remaining (status_of pod state ∷ []) ≡ 0
      → Left env opts pod
  unfolding remaining
  settled-Left pod skipped e z = inl e
  settled-Left pod evicting e z = absurd (omega (arith, z))
  settled-Left pod blocked e z = absurd (omega (arith, z))

  drain_pod-Left :
      (pod : Pod) (state : Option DrainState)
      → settled opts pod ≡ state
      → Ensures Any (drain_pod env opts pod state) (λ out. remaining out.0 ≡ 0 → Left env opts pod)
  unfolding drain_pod
  drain_pod-Left pod (some state) e = Ensures-pure _ (settled-Left pod state e)
  drain_pod-Left pod none e =
      Ensures-bind {P = λ reply. (h : History) × (env.evict_reply h pod ≡ reply)} _ _
        (unfold create_eviction in record { at = λ h all. ((tt, all), (h, refl)) })
        (λ reply k. Ensures-pure _ (evicted-Left pod k.0 reply k.1))

  drain_pods-Left :
      (pods : List Pod)
      → Ensures Any
          (drain_pods env opts pods)
          (λ out. remaining out.0 ≡ 0 → All (Left env opts) pods)
  unfolding drain_pods
  drain_pods-Left [] = Ensures-pure _ (λ z. tt)
  drain_pods-Left (pod ∷ pods) =
      Ensures-bind _ _ (drain_pod-Left pod (settled opts pod) refl) (λ one k.
        Ensures-bind _ _ (drain_pods-Left pods) (λ rest l. Ensures-pure _ (λ z. (
          k (omega (arith, z, remaining-append one.0 rest.0)),
          l (omega (arith, z, remaining-append one.0 rest.0)),
        ))))

  listed :
      (name : String) (h : History) (answer : Answer (List Pod))
      → env.pods_at h name ≡ answer
      → Post (λ pods. (h : History) × (env.pods_at h name ≡ found pods)) (of_answer answer)
  listed name h (found pods) e = (h, e)
  listed name h (refused x) e = tt

  finished :
      (Q : List PodStatus → Type 0) (out : List PodStatus × Option Error)
      → Q out.0
      → Post Q (finish out)
  finished Q (ps, none) q = q
  finished Q (ps, some e) q = tt

  drain_node-Left :
      (name : String)
      → Ensures Any (drain_node env opts name) (λ st. remaining st ≡ 0 → Emptied env opts name)
  unfolding drain_node
  drain_node-Left name =
      Ensures-bind _ _
        (Ensures-in_context {Q = λ pods. (h : History) × (env.pods_at h name ≡ found pods)} _ _ (
          unfold read_pods in
          record { at = λ h all. ((tt, all), listed name h (env.pods_at h name) refl) }))
        (λ pods k.
          Ensures-bind _ _ (drain_pods-Left pods)
            (λ out l. Ensures-lift _ (finished _ out (λ z. (k.0, pods, k.1, l z)))))

same : {s t : List PodStatus} → ok s ≡ ok t → s ≡ t
same e = cc

-- Where a drain pass returns without an error and reports no remaining pod, some listing of the node
-- showed only pods that the drain leaves alone and pods whose eviction was answered with NotFound.
pub drain_node-Emptied :
    (env : Env) (opts : DrainOptions) (name : String) (h : History) (st : List PodStatus)
    → (drain_node env opts name h).0 ≡ ok st
    → remaining st ≡ 0
    → Emptied env opts name
drain_node-Emptied env opts name h st e z =
    go (drain_node env opts name h).0 (((drain_node-Left env opts name).at h (Any-calls h)).1) e
  where
    go :
        (r : Result (List PodStatus))
        → Post (λ st. remaining st ≡ 0 → Emptied env opts name) r
        → r ≡ ok st
        → Emptied env opts name
    go (ok s) q e = q (ap remaining (same e) ∙ z)
    go (err x) q e = absurd cc
