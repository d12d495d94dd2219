-- ===== src/Version/Sample.antt =====
-- A concrete version library for the examples: plain "major.minor.patch", compared by the three
-- numbers. It stands for github.com/Masterminds/semver on texts without a prerelease part.
use Prim.Native.Nat.{compare}
use Prim.Native.String.{◌++◌}
use text.Mathlib.TextLemmas.{nil-append, cons-append, append-nil}
use kubernetes_upgrade_opera.Base.{
  ℕ, Ordering, String, ◌≡◌, ◌≢◌, refl, sym, ◌∙◌, ap, Option, none, some, arith, if◌then◌else◌,
  str_eq, decimal,
}
use kubernetes_upgrade_opera.Base.Text.{strip_prefix}
use kubernetes_upgrade_opera.Base.Text.Digits.{scan, decimal-scan}
use kubernetes_upgrade_opera.Version.{Semver, SemverLaws, dotted}

pub record Numbers : Type 0 where
  pub major : ℕ
  pub minor : ℕ
  pub patch : ℕ

unfoldable pub order : Numbers → Numbers → Ordering
order u v = elim (compare u.major v.major) [
  | Ordering.lt ↦ Ordering.lt
  | Ordering.gt ↦ Ordering.gt
  | Ordering.eq ↦ elim (compare u.minor v.minor) [
    | Ordering.lt ↦ Ordering.lt
    | Ordering.gt ↦ Ordering.gt
    | Ordering.eq ↦ compare u.patch v.patch
  ]
]

third_number : ℕ → ℕ → ℕ × String → Option Numbers
third_number a b (c, rest) =
    if str_eq rest "" then some (record { major = a; minor = b; patch = c }) else none

after_second : ℕ → ℕ → Option String → Option Numbers
unfolding third_number scan
after_second a b none = none
after_second a b (some s) = third_number a b (scan 0 s)

second_number : ℕ → ℕ × String → Option Numbers
unfolding after_second strip_prefix
second_number a (b, rest) = after_second a b (strip_prefix "." rest)

after_first : ℕ → Option String → Option Numbers
unfolding second_number scan
after_first a none = none
after_first a (some s) = second_number a (scan 0 s)

first_number : ℕ × String → Option Numbers
unfolding after_first strip_prefix
first_number (a, rest) = after_first a (strip_prefix "." rest)

unfoldable pub read_numbers : String → Option Numbers
unfolding first_number scan
read_numbers s = first_number (scan 0 s)

abbrev pub sample : Semver
sample = record {
  Version = Numbers;
  new_version = read_numbers;
  compare = order;
  major = λ v. v.major;
  minor = λ v. v.minor;
  patch = λ v. v.patch;
}

scan-dot : (n : ℕ) (s : String) → scan n ("." ++ s) ≡ (n, "." ++ s)
unfolding scan
scan-dot n s = rw (cons-append "." "" s) refl

strip-dot : (s : String) → strip_prefix "." ("." ++ s) ≡ some s
unfolding strip_prefix
strip-dot s = rw (cons-append "." "" s, nil-append) refl

scan-last : (n : ℕ) → scan 0 (decimal n) ≡ (n, "")
unfolding scan
scan-last n = ap (scan 0) (sym (append-nil (decimal n))) ∙ decimal-scan n ""

read_numbers-dotted :
    (a b c : ℕ) → read_numbers (dotted a b c) ≡ some (record { major = a; minor = b; patch = c })
unfolding read_numbers dotted
read_numbers-dotted a b c =
    rw
      (
        decimal-scan a ("." ++ (decimal b ++ ("." ++ decimal c))),
        scan-dot,
        strip-dot,
        decimal-scan b ("." ++ decimal c),
        scan-dot,
        strip-dot,
        scan-last c,
      )
      refl

order_trans :
    (u v w : Numbers) → order u v ≢ Ordering.gt → order v w ≢ Ordering.gt → order u w ≢ Ordering.gt
unfolding order
order_trans u v w h k = ground arith

pub sample_laws : SemverLaws sample
unfolding order
sample_laws = record {
  compare_refl = λ v. ground arith;
  compare_flip = λ u v h. ground arith;
  compare_flop = λ u v h. ground arith;
  compare_trans = order_trans;
  compare_minor = λ u v e h. ground arith;
  read_dotted = λ a b c ha hb hc.
      (record { major = a; minor = b; patch = c }, read_numbers-dotted a b c, refl, refl, refl);
}
