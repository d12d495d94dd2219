-- ===== src/Version/Dotted.antt =====
-- The version strings that the program prints ("v%d.%d.%d") are read back as the numbers in them.
use Prim.Native.String.{◌++◌}
use text.Mathlib.TextLemmas.{nil-append, cons-append}
use kubernetes_upgrade_opera.Base.{ℕ, ◌^◌, ◌<◌, ◌≡◌, refl, arith, trim_prefix, trim_space, decimal}
use kubernetes_upgrade_opera.Base.Text.Spaces.{
  NoSpace, NoSpace-append, trim_space-NoSpace, decimal-NoSpace,
}
use kubernetes_upgrade_opera.Base.Text.{is_space}
use kubernetes_upgrade_opera.Version.{Semver, SemverLaws, dotted, parse_version, Reads}

dotted-NoSpace : (a b c : ℕ) → NoSpace (dotted a b c)
unfolding dotted is_space
dotted-NoSpace a b c = NoSpace-append (decimal a) _ (decimal-NoSpace a) (
    NoSpace-append "." _ (refl, tt)
      (NoSpace-append (decimal b) _ (decimal-NoSpace b)
        (NoSpace-append "." _ (refl, tt) (decimal-NoSpace c))))

trimmed : (a b c : ℕ) → trim_prefix (trim_space ("v" ++ dotted a b c)) "v" ≡ dotted a b c
unfolding trim_prefix is_space
trimmed a b c =
    rw (trim_space-NoSpace _ (NoSpace-append "v" _ (refl, tt) (dotted-NoSpace a b c)))
      (rw (cons-append "v" "" (dotted a b c), nil-append) refl)

pub Reads-dotted :
    (S : Semver) (L : SemverLaws S) (a b c : ℕ)
    → a < 2 ^ 63
    → b < 2 ^ 63
    → c < 2 ^ 63
    → (v : S.Version) × Reads S ("v" ++ dotted a b c) v
      × (S.major v ≡ a)
      × (S.minor v ≡ b)
      × (S.patch v ≡ c)
unfolding parse_version
Reads-dotted S L a b c ha hb hc =
    let (v, r, ea, eb, ec) = L.read_dotted a b c (omega arith) (omega arith) (omega arith) in
    (
      v,
      record {
        accepted = rw (trimmed, r) refl;
        major_small = omega (arith, ea);
        minor_small = omega (arith, eb);
        patch_small = omega (arith, ec);
      },
      ea,
      eb,
      ec,
    )
