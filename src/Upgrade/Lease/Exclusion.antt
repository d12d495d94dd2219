-- ===== src/Upgrade/Lease/Exclusion.antt =====
-- Upgrades that contend for the lease of acquireLease: any number of them, each of which reads the
-- clock and the lease, and later writes what it claims.
--
-- The API server stores one lease with a version. Its documented behaviour is that of the events: a
-- creation succeeds only where no lease is stored, and an update only where the lease is still of the
-- version that was read. The runs are those in which no lease is deleted. The clocks may show anything.
use mathlib.Core.List.{Memᴰ}
use kubernetes_upgrade_opera.Base.{
  ℕ, suc, ◌+◌, ◌<◌, ◌≤◌, pos, ◌-ℤ◌, ltb_ℤ, String, str_eq, Bool, true, false, Option, none, some,
  List, [], ◌∷◌, All, All-at, All-imp, ◌≡◌, refl, sym, ◌⊎◌, inl, inr, arith, eq_iff, if◌then◌else◌,
}
use kubernetes_upgrade_opera.Result.{not_found, ok}
use kubernetes_upgrade_opera.Core.{Time, Lease}
use kubernetes_upgrade_opera.Cluster.{Answer, found, refused}
use kubernetes_upgrade_opera.Upgrade.Lease.{
  lease_duration, is_held, is_held_by, is_stale, lease_of, create, update, stop, claim,
}
use kubernetes_upgrade_opera.Upgrade.Lease.Laws.{Free, Free-guard}

-- What an upgrade has read: the time, and the lease with its version.
pub record Attempt : Type 0 where
  pub id : String
  pub time : ℕ
  pub answer : Answer Lease
  pub version : ℕ

-- The stored lease with its version, what has been read, and who was granted the lease at what time,
-- the newest first.
pub record Contest : Type 0 where
  pub lease : Option Lease
  pub version : ℕ
  pub attempts : List Attempt
  pub grants : List (String × ℕ)

abbrev pub answer_of : Option Lease → Answer Lease
answer_of none = refused not_found
answer_of (some l) = found l

-- The write that acquireLease makes of what it has read.
abbrev pub Claims : Attempt → Lease → Type 0
Claims a l =
    (claim a.id (pos a.time) a.answer ≡ create l) ⊎ (claim a.id (pos a.time) a.answer ≡ update l)

abbrev read_by : Contest → String → ℕ → Contest
read_by c id time = record c {
  attempts =
      record { id = id; time = time; answer = answer_of c.lease; version = c.version } ∷ c.attempts;
}

abbrev written_by : Contest → Attempt → Lease → Contest
written_by c a l = record c {
  lease = some l;
  version = suc c.version;
  grants = (a.id, a.time) ∷ c.grants;
}

pub data Event (c : Contest) : Contest → Type 0 where
  reads : (id : String) (time : ℕ) → str_eq id "" ≡ false → Event c (read_by c id time)
  writes :
      (a : Attempt) (l : Lease)
      → Memᴰ a c.attempts
      → a.version ≡ c.version
      → Claims a l
      → Event c (written_by c a l)

abbrev pub start : Contest
start = record { lease = none; version = 0; attempts = []; grants = [] }

pub data Reached : Contest → Type 0 where
  at_start : Reached start
  and_then : {c d : Contest} → Reached c → Event c d → Reached d

-- The later of two grants is to the same upgrade, or by more than the lease's duration later.
abbrev pub Apart : String × ℕ → String × ℕ → Type 0
Apart (id, t) (id', t') = (id' ≡ id) ⊎ (t + 300000000000 < t')

abbrev pub Spaced : List (String × ℕ) → Type 0
Spaced [] = Unit
Spaced (g ∷ []) = Unit
Spaced (g ∷ f ∷ grants) = Apart f g × Spaced (f ∷ grants)

-- The stored lease is that of the newest grant.
abbrev Held : Option Lease → List (String × ℕ) → Type 0
Held lease [] = lease ≡ none
Held lease ((id, t) ∷ grants) = (lease ≡ some (lease_of id (pos t))) × (str_eq id "" ≡ false)

-- An attempt on the present version has read the present lease.
record UpToDate (lease : Option Lease) (version : ℕ) (a : Attempt) : Type 0 where
  pub named : str_eq a.id "" ≡ false
  pub past : a.version ≤ version
  pub same : a.version ≡ version → a.answer ≡ answer_of lease

record Inv (c : Contest) : Type 0 where
  pub spaced : Spaced c.grants
  pub held : Held c.lease c.grants
  pub read : All (UpToDate c.lease c.version) c.attempts

by_guard :
    (id : String) (now : Time) (lease l : Lease) (b : Bool)
    → (if b then stop (ok false) else update (lease_of id now)) ≡ update l
    → (b ≡ false) × (l ≡ lease_of id now)
by_guard id now lease l true e = absurd cc
by_guard id now lease l false e = (refl, cc)

no_create :
    (id : String) (now : Time) (l : Lease) (b : Bool)
    → (if b then stop (ok false) else update (lease_of id now)) ≡ create l
    → ⊥
no_create id now l true e = cc
no_create id now l false e = cc

-- What is written over a lease that was found.
claim-Free :
    (id : String) (now : Time) (lease l : Lease)
    → (claim id now (found lease) ≡ create l) ⊎ (claim id now (found lease) ≡ update l)
    → Free id now lease × (l ≡ lease_of id now)
unfolding claim
claim-Free id now lease l (inl e) = absurd (no_create id now l _ e)
claim-Free id now lease l (inr e) =
    let (guard, same) = by_guard id now lease l _ e in
    (
      Free-guard id now lease (is_held lease) (is_held_by lease id) (is_stale lease now) refl refl
          refl guard,
      same,
    )

claim-ours :
    (id : String) (now : Time) (l : Lease)
    → (claim id now (refused not_found) ≡ create l) ⊎ (claim id now (refused not_found) ≡ update l)
    → l ≡ lease_of id now
unfolding claim
claim-ours id now l (inl e) = cc
claim-ours id now l (inr e) = absurd cc

later_than : (t t' : ℕ) → ltb_ℤ lease_duration (pos t' -ℤ pos t) ≡ true → t + 300000000000 < t'
unfolding ◌-ℤ◌
later_than t t' h = ground arith

-- A free lease of a named upgrade is taken by the same one, or after its duration.
Free-Apart :
    (id id' : String) (t t' : ℕ)
    → str_eq id "" ≡ false
    → Free id' (pos t') (lease_of id (pos t))
    → Apart (id, t) (id', t')
unfolding is_held is_held_by is_stale
Free-Apart id id' t t' named (inl e) = absurd (cc (rw named at e))
Free-Apart id id' t t' named (inr (inl e)) = inl (sym ((eq_iff id id').0 e))
Free-Apart id id' t t' named (inr (inr e)) = inr (later_than t t' e)

-- A claim on what is stored now is granted apart from the newest grant.
granted :
    (lease : Option Lease) (grants : List (String × ℕ)) (id : String) (time : ℕ)
    (answer : Answer Lease) (l : Lease)
    → Held lease grants
    → Spaced grants
    → answer ≡ answer_of lease
    → (claim id (pos time) answer ≡ create l) ⊎ (claim id (pos time) answer ≡ update l)
    → (l ≡ lease_of id (pos time)) × Spaced ((id, time) ∷ grants)
granted lease [] id time answer l held spaced e k =
    let here : answer ≡ refused not_found = rw held at e in
    (claim-ours id (pos time) l (rw here at k), tt)
granted lease ((f, t) ∷ grants) id time answer l (held, named) spaced e k =
    let here : answer ≡ found (lease_of f (pos t)) = rw held at e in
    let (free, ours) = claim-Free id (pos time) (lease_of f (pos t)) l (rw here at k) in
    (ours, (Free-Apart f id t time named free, spaced))

behind :
    (lease next : Option Lease) (version : ℕ) (attempts : List Attempt)
    → All (UpToDate lease version) attempts
    → All (UpToDate next (suc version)) attempts
behind lease next version attempts all =
    All-imp
      (λ a u. record {
        named = u.named;
        past = (let p = u.past in omega arith);
        same = λ e. absurd (let p = u.past in omega arith);
      })
      attempts all

Event-Inv : {c d : Contest} → Inv c → Event c d → Inv d
Event-Inv {c = c} i (reads id time named) = record {
  spaced = i.spaced;
  held = i.held;
  read = (record { named = named; past = omega arith; same = λ e. refl }, i.read);
}
Event-Inv {c = c} i (writes a l m e k) =
    let u = All-at (UpToDate c.lease c.version) c.attempts i.read m in
    let (ours, spaced) =
      granted c.lease c.grants a.id a.time a.answer l i.held i.spaced (u.same e) k in
    record {
      spaced = spaced;
      held = (rw ours refl, u.named);
      read = behind c.lease (some l) c.version c.attempts i.read;
    }

Reached-Inv : {c : Contest} → Reached c → Inv c
Reached-Inv at_start = record { spaced = tt; held = refl; read = tt }
Reached-Inv (and_then r e) = Event-Inv (Reached-Inv r) e

-- However any number of upgrades, whose names are not empty, read their clocks and the lease and write
-- what acquireLease claims, in any order, while no lease is deleted: of two grants that follow one
-- another, the later is to the same upgrade, or by more than five minutes later than the earlier, as
-- the two have read their clocks.
pub Reached-Spaced : (c : Contest) → Reached c → Spaced c.grants
Reached-Spaced c r = (Reached-Inv r).spaced
