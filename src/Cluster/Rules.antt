-- ===== src/Cluster/Rules.antt =====
-- Rules for what every call of a handler satisfies, and for what it returns.
use kubernetes_upgrade_opera.Base.{
  sym, ◌≡◌, refl, String, Bool, true, false, [], ◌∷◌, All, if◌then◌else◌,
}
use kubernetes_upgrade_opera.Result.{Error, Result, ok, err, context}
use kubernetes_upgrade_opera.Core.{Pod}
use kubernetes_upgrade_opera.Types.{NodeGroupUpgrade}
use kubernetes_upgrade_opera.Cluster.{
  Call, Answer, found, refused, of_answer, get_node, patch_unschedulable, list_pods, evict,
  delete_pod, delete_node, update_status, read_clock, Env, History, Run, pure, raise, lift,
  continue, attempt, in_context, read_node, read_pods, write_unschedulable, create_eviction,
  remove_pod, remove_node, write_status, now, note, ◌>>=◌,
}

-- `Q` holds of the value, if there is one.
abbrev pub Post : {A : Type 0} → (A → Type 0) → Result A → Type 0
Post Q (ok a) = Q a
Post Q (err e) = Unit

abbrev pub Any : {A : Type 0} → A → Type 0
Any a = Unit

-- Every call that `m` makes satisfies `C`, and what it returns satisfies `Q`.
pub record Ensures {A : Type 0} (C : Call → Type 0) (m : Run A) (Q : A → Type 0) : Type 0 where
  pub at : (h : History) → All C h → All C (m h).1 × Post Q (m h).0

through :
    {A : Type 0} (Q : A → Type 0) (w : String) (r : Result A) → Post Q r → Post Q (context w r)
through Q w (ok a) q = q
through Q w (err e) q = tt

weaker :
    {A : Type 0} (P Q : A → Type 0) → ((a : A) → P a → Q a) → (r : Result A) → Post P r → Post Q r
weaker P Q f (ok a) p = f a p
weaker P Q f (err e) p = tt

pub anything : {A : Type 0} (r : Result A) → Post Any r
anything (ok a) = tt
anything (err e) = tt

-- The value of a read is what some history answers.
pub answered :
    {A : Type 0} (f : History → Answer A) (h : History)
    → Post (λ a. (h' : History) × (f h' ≡ found a)) (of_answer (f h))
answered {A = A} f h = given (f h) refl
  where
    given : (r : Answer A) → f h ≡ r → Post (λ a. (h' : History) × (f h' ≡ found a)) (of_answer r)
    given (found a) e = (h, e)
    given (refused e) q = tt

-- A value that is returned is what the result is.
pub ended_as : {A : Type 0} (r : Result A) → Post (λ a. r ≡ ok a) r
ended_as (ok a) = refl
ended_as (err e) = tt

module _ {A : Type 0} {C : Call → Type 0} where
  pub Ensures-pure : {Q : A → Type 0} (a : A) → Q a → Ensures C (pure a) Q
  unfolding pure
  Ensures-pure a q = record { at = λ h all. (all, q) }

  pub Ensures-raise : {Q : A → Type 0} (e : Error) → Ensures C (raise e) Q
  unfolding raise
  Ensures-raise e = record { at = λ h all. (all, tt) }

  pub Ensures-lift : {Q : A → Type 0} (r : Result A) → Post Q r → Ensures C (lift r) Q
  unfolding lift
  Ensures-lift r q = record { at = λ h all. (all, q) }

  pub Ensures-if :
      {Q : A → Type 0} (b : Bool) (m n : Run A)
      → Ensures C m Q
      → Ensures C n Q
      → Ensures C (if b then m else n) Q
  Ensures-if true m n km kn = km
  Ensures-if false m n km kn = kn

  -- Each branch may use how the test came out.
  pub Ensures-if_known :
      {Q : A → Type 0} (b : Bool) (m n : Run A)
      → (b ≡ true → Ensures C m Q)
      → (b ≡ false → Ensures C n Q)
      → Ensures C (if b then m else n) Q
  Ensures-if_known true m n km kn = km refl
  Ensures-if_known false m n km kn = kn refl

  pub Ensures-attempt :
      {Q : A → Type 0} (m : Run A) → Ensures C m Q → Ensures C (attempt m) (Post Q)
  unfolding attempt
  Ensures-attempt m km = record { at = λ h all. km.at h all }

  pub Ensures-in_context :
      {Q : A → Type 0} (w : String) (m : Run A) → Ensures C m Q → Ensures C (in_context w m) Q
  unfolding in_context
  Ensures-in_context {Q} w m km = record {
    at = λ h all. ((km.at h all).0, through Q w (m h).0 (km.at h all).1);
  }

  pub Ensures-weaken :
      {P Q : A → Type 0} (m : Run A) → ((a : A) → P a → Q a) → Ensures C m P → Ensures C m Q
  Ensures-weaken {P} {Q} m f km = record {
    at = λ h all. ((km.at h all).0, weaker P Q f (m h).0 (km.at h all).1);
  }

-- Conditions that are the same for every call.
same_All : {C D : Call → Type 0} → ((c : Call) → C c ≡ D c) → (h : History) → All C h ≡ All D h
same_All same [] = refl
same_All same (c ∷ h) = rw (same c, same_All same h) refl

pub Ensures-same :
    {A : Type 0} {C D : Call → Type 0} {Q : A → Type 0} (m : Run A)
    → ((c : Call) → C c ≡ D c)
    → Ensures C m Q
    → Ensures D m Q
Ensures-same {C} {D} {Q} m same km = record {
  at = λ h all.
      rw (sym (same_All {C = C} {D = D} same (m h).1))
        (km.at h (rw (same_All {C = C} {D = D} same h) all));
}

module _ {A B : Type 0} {C : Call → Type 0} where
  next :
      {P : A → Type 0} {Q : B → Type 0} (r : Result A) (f : A → Run B)
      → Post P r
      → ((a : A) → P a → Ensures C (f a) Q)
      → (h : History) → All C h
      → All C (continue r f h).1 × Post Q (continue r f h).0
  next (ok a) f p kf h all = (kf a p).at h all
  next (err e) f p kf h all = (all, tt)

  pub Ensures-bind :
      {P : A → Type 0} {Q : B → Type 0} (m : Run A) (f : A → Run B)
      → Ensures C m P
      → ((a : A) → P a → Ensures C (f a) Q)
      → Ensures C (m >>= f) Q
  unfolding ◌>>=◌
  Ensures-bind {P} {Q} m f km kf = record {
    at = λ h all. next {P = P} {Q = Q} (m h).0 f (km.at h all).1 kf (m h).1 (km.at h all).0;
  }

module _ {C : Call → Type 0} where
  pub Ensures-note : (c : Call) → C c → Ensures C (note c) Any
  unfolding note
  Ensures-note c k = record { at = λ h all. ((k, all), tt) }

  module _ (env : Env) where
    pub Ensures-read_node : (name : String) → C (get_node name) → Ensures C (read_node env name) Any
    unfolding read_node
    Ensures-read_node name k = record { at = λ h all. ((k, all), anything _) }

    pub Ensures-read_pods :
        (name : String) → C (list_pods name) → Ensures C (read_pods env name) Any
    unfolding read_pods
    Ensures-read_pods name k = record { at = λ h all. ((k, all), anything _) }

    pub Ensures-write_unschedulable :
        (name : String) (b : Bool)
        → C (patch_unschedulable name b)
        → Ensures C (write_unschedulable env name b) Any
    unfolding write_unschedulable
    Ensures-write_unschedulable name b k = record { at = λ h all. ((k, all), anything _) }

    pub Ensures-create_eviction :
        (pod : Pod) → C (evict pod) → Ensures C (create_eviction env pod) Any
    unfolding create_eviction
    Ensures-create_eviction pod k = record { at = λ h all. ((k, all), tt) }

    pub Ensures-remove_pod :
        (namespace name : String)
        → C (delete_pod namespace name)
        → Ensures C (remove_pod env namespace name) Any
    unfolding remove_pod
    Ensures-remove_pod namespace name k = record { at = λ h all. ((k, all), tt) }

    pub Ensures-remove_node :
        (name : String) → C (delete_node name) → Ensures C (remove_node env name) Any
    unfolding remove_node
    Ensures-remove_node name k = record { at = λ h all. ((k, all), tt) }

    pub Ensures-write_status :
        (ng : NodeGroupUpgrade) → C (update_status ng) → Ensures C (write_status env ng) Any
    unfolding write_status
    Ensures-write_status ng k = record { at = λ h all. ((k, all), anything _) }

    pub Ensures-now : C read_clock → Ensures C (now env) Any
    unfolding now
    Ensures-now k = record { at = λ h all. ((k, all), tt) }

-- A condition that every call satisfies holds of every history.
pub Any-calls : (h : History) → All Any h
Any-calls [] = tt
Any-calls (c ∷ h) = (tt, Any-calls h)
