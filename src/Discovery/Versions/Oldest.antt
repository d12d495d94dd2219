-- ===== src/Discovery/Versions/Oldest.antt =====
-- GroupCurrentVersion of pkg/upgrade/discovery.go: which version it returns.
use mathlib.Core.List.{Memᴰ}
use mathlib.Core.List.Memᴰ.{head, tail}
use kubernetes_upgrade_opera.Base.{
  String, str_eq, eq_iff, ◌≡◌, ◌≢◌, refl, sym, ap, ◌∙◌, ◌⊎◌, inl, inr, List, [], ◌∷◌, Ordering,
  Bool-cases, All,
}
use kubernetes_upgrade_opera.Result.{Error, Result, ok, err, context, no_known_version, ◌>>=◌}
use kubernetes_upgrade_opera.Core.{Node}
use kubernetes_upgrade_opera.Discovery.{DiscoveredGroup}
use kubernetes_upgrade_opera.Discovery.Versions.{
  older, older_of, oldest_in, member_versions, known, group_current_version,
}
use kubernetes_upgrade_opera.Version.{Semver, SemverLaws, parse_version, compare_versions}

-- The version `a` is read, as is `b`, and it is not newer.
pub record NotNewer (S : Semver) (a b : String) : Type 0 where
  pub u : S.Version
  pub v : S.Version
  pub reads_a : parse_version S a ≡ ok u
  pub reads_b : parse_version S b ≡ ok v
  pub ordered : S.compare u v ≢ Ordering.gt

-- The same text, or not newer.
abbrev pub AtMost : Semver → String → String → Type 0
AtMost S a b = (a ≡ b) ⊎ NotNewer S a b

module _ (S : Semver) (laws : SemverLaws S) where
  same_value :
      (s : String) {u v : S.Version} → parse_version S s ≡ ok u → parse_version S s ≡ ok v → u ≡ v
  same_value s e f = inside (sym e ∙ f)
    where
      inside : {u v : S.Version} → ok u ≡ ok v → u ≡ v
      inside e = cc

  NotNewer-trans : {a b c : String} → NotNewer S a b → NotNewer S b c → NotNewer S a c
  NotNewer-trans {b} p q = record {
    u = p.u;
    v = q.v;
    reads_a = p.reads_a;
    reads_b = q.reads_b;
    ordered =
        laws.compare_trans p.u p.v q.v p.ordered (rw (same_value b p.reads_b q.reads_a) q.ordered);
  }

  AtMost-trans : {a b c : String} → AtMost S a b → AtMost S b c → AtMost S a c
  AtMost-trans {c} (inl e) q = rw e q
  AtMost-trans {a} (inr p) (inl e) = inr (rw (sym e) p)
  AtMost-trans (inr p) (inr q) = inr (NotNewer-trans p q)

  -- What one round of the loop makes of a version and the oldest one so far.
  record Round (v oldest next : String) : Type 0 where
    chosen : (next ≡ v) ⊎ ((next ≡ oldest) × (oldest ≢ ""))
    below : AtMost S next v
    kept : (oldest ≡ "") ⊎ AtMost S next oldest

  ordered-Round :
      (v oldest : String) {u w : S.Version} (o : Ordering)
      → oldest ≢ ""
      → parse_version S v ≡ ok u
      → parse_version S oldest ≡ ok w
      → S.compare u w ≡ o
      → Round v oldest (older v oldest o)
  ordered-Round v oldest {u} {w} Ordering.lt real p q e = record {
    chosen = inl refl;
    below = inl refl;
    kept = inr (inr (record { u = u; v = w; reads_a = p; reads_b = q; ordered = λ g. cc }));
  }
  ordered-Round v oldest {u} {w} Ordering.eq real p q e = record {
    chosen = inr (refl, real);
    below = inr (record {
      u = w;
      v = u;
      reads_a = q;
      reads_b = p;
      ordered = λ g. let h = laws.compare_flop w u g in cc;
    });
    kept = inr (inl refl);
  }
  ordered-Round v oldest {u} {w} Ordering.gt real p q e = record {
    chosen = inr (refl, real);
    below = inr (record {
      u = w;
      v = u;
      reads_a = q;
      reads_b = p;
      ordered = λ g. let h = laws.compare_flop w u g in cc;
    });
    kept = inr (inl refl);
  }

  read-Round :
      (v oldest next : String) (pv po : Result S.Version)
      → oldest ≢ ""
      → parse_version S v ≡ pv
      → parse_version S oldest ≡ po
      → (pv >>= λ a. po >>= λ b. ok (S.compare a b)) >>= (λ o. ok (older v oldest o)) ≡ ok next
      → Round v oldest next
  read-Round v oldest next (err e) po real p q h = absurd cc
  read-Round v oldest next (ok u) (err e) real p q h = absurd cc
  read-Round v oldest next (ok u) (ok w) real p q h =
      rw (result next h) (ordered-Round v oldest (S.compare u w) real p q refl)
    where
      result : {chosen : String} (next : String) → ok chosen ≡ ok next → next ≡ chosen
      result next h = cc

  older_of-Round : (v oldest next : String) → older_of S v oldest ≡ ok next → Round v oldest next
  unfolding older_of compare_versions
  older_of-Round v oldest next h = elim (Bool-cases (str_eq oldest "")) [
    | inl first ↦
        let e = rw first at h in
        record { chosen = inl cc; below = inl cc; kept = inl ((eq_iff oldest "").0 first) }
    | inr further ↦
        read-Round v oldest next (parse_version S v) (parse_version S oldest)
          (λ e. absurd (cc (further, (eq_iff oldest "").1 e))) refl refl (rw further at h)
  ]

  -- What the loop returns: one of the versions, or what it began with, and no version is older.
  record Bound (start : String) (versions : List String) (r : String) : Type 0 where
    chosen : (r ≡ start) ⊎ Memᴰ r versions
    kept : (start ≡ "") ⊎ AtMost S r start
    below : All (λ v. (v ≡ "") ⊎ AtMost S r v) versions

  Bound-skip :
      (v start : String) (versions : List String) (r : String)
      → v ≡ ""
      → Bound start versions r
      → Bound start (v ∷ versions) r
  Bound-skip v start versions r e b = record {
    chosen = elim b.chosen [ inl f ↦ inl f | inr m ↦ inr (tail m) ];
    kept = b.kept;
    below = (inl e, b.below);
  }

  Bound-Round :
      (v start next : String) (versions : List String) (r : String)
      → v ≢ ""
      → Round v start next
      → Bound next versions r
      → Bound start (v ∷ versions) r
  Bound-Round v start next versions r full round b = record {
    chosen = choose b.chosen round.chosen;
    kept = elim round.kept [ inl e ↦ inl e | inr k ↦ inr (AtMost-trans (known_next b.kept) k) ];
    below = (inr (AtMost-trans (known_next b.kept) round.below), b.below);
  }
    where
      choose :
          (r ≡ next) ⊎ Memᴰ r versions
          → (next ≡ v) ⊎ ((next ≡ start) × (start ≢ ""))
          → (r ≡ start) ⊎ Memᴰ r (v ∷ versions)
      choose (inl e) (inl f) = inr (head (e ∙ f))
      choose (inl e) (inr f) = inl (e ∙ f.0)
      choose (inr m) f = inr (tail m)

      filled : (next ≡ v) ⊎ ((next ≡ start) × (start ≢ "")) → next ≢ ""
      filled (inl f) e = full (sym f ∙ e)
      filled (inr f) e = f.1 (sym f.0 ∙ e)

      known_next : (next ≡ "") ⊎ AtMost S r next → AtMost S r next
      known_next (inl e) = absurd (filled round.chosen e)
      known_next (inr k) = k

  oldest_in-Bound :
      (versions : List String) (start r : String)
      → oldest_in S versions start ≡ ok r
      → Bound start versions r
  unfolding oldest_in
  oldest_in-Bound [] start r h = record { chosen = inl cc; kept = inr (inl cc); below = tt }
  oldest_in-Bound (v ∷ versions) start r h = elim (Bool-cases (str_eq v "")) [
    | inl none_given ↦
        Bound-skip v start versions r ((eq_iff v "").0 none_given)
          (oldest_in-Bound versions start r (rw none_given at h))
    | inr given ↦
        go (older_of S v start) refl (λ e. absurd (cc (given, (eq_iff v "").1 e))) (rw given at h)
          (λ next h. oldest_in-Bound versions next r h)
  ]
    where
      go :
          (round : Result String)
          → older_of S v start ≡ round
          → v ≢ ""
          → (round >>= λ next. oldest_in S versions next) ≡ ok r
          → ((next : String) → oldest_in S versions next ≡ ok r → Bound next versions r)
          → Bound start (v ∷ versions) r
      go (err e) same full h rest = absurd cc
      go (ok next) same full h rest =
          Bound-Round v start next versions r full (older_of-Round v start next same) (rest next h)

  -- Let the parser and the order of versions be as documented. A version that GroupCurrentVersion
  -- returns is that of a member of the group and not "", and for each member whose version is not ""
  -- it is the same text, or it is read as a version that is not newer.
  pub group_current_version-oldest :
      (nodes : List Node) (group : DiscoveredGroup) (r : String)
      → group_current_version S nodes group ≡ ok r
      → (r ≢ "")
        × Memᴰ r (member_versions S nodes group.nodes)
        × All (λ v. (v ≡ "") ⊎ AtMost S r v) (member_versions S nodes group.nodes)
  unfolding group_current_version
  group_current_version-oldest nodes group r h =
      go (oldest_in S (member_versions S nodes group.nodes) "") refl h
    where
      fits : (s : String) (e : Error) → known S e s ≡ ok r → (s ≡ r) × (r ≢ "")
      fits s e h = elim (Bool-cases (str_eq s "")) [
        | inl bare ↦ absurd (cc (rw bare at h))
        | inr filled ↦
            let same = rw filled at h in (cc, λ f. absurd (cc (filled, (eq_iff s "").1 cc)))
      ]

      member :
          (r ≡ "") ⊎ Memᴰ r (member_versions S nodes group.nodes)
          → r ≢ ""
          → Memᴰ r (member_versions S nodes group.nodes)
      member (inl e) full = absurd (full e)
      member (inr m) full = m

      go :
          (loop : Result String)
          → oldest_in S (member_versions S nodes group.nodes) "" ≡ loop
          → (context "comparing versions for group" loop >>= λ oldest.
              known S (no_known_version group.name) oldest)
            ≡ ok r
          → (r ≢ "")
            × Memᴰ r (member_versions S nodes group.nodes)
            × All (λ v. (v ≡ "") ⊎ AtMost S r v) (member_versions S nodes group.nodes)
      go (err e) same h = absurd cc
      go (ok s) same h =
          let (e, full) = fits s _ h in
          let bound = oldest_in-Bound (member_versions S nodes group.nodes) "" r (same ∙ ap ok e) in
          (full, member bound.chosen full, bound.below)
