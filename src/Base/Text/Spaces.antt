-- ===== src/Base/Text/Spaces.antt =====
-- `strings.TrimSpace` leaves a text without white space as it is.
use Prim.Native.Char.{code}
use Prim.Native.String.{String, [], ◌∷◌, ◌++◌}
use Prim.Native.Nat.{ℕ, zero, suc, ◌/◌, ◌%◌}
use mathlib.Core.Path.{◌≡◌, refl}
use mathlib.Core.Bool.{false}
use text.Mathlib.TextLemmas.{nil-append, cons-append}
use native.Mathlib.Omega.{arith}
use kubernetes_upgrade_opera.Base.Text.{
  is_space, trim_left, trim_right, trim_space, digit, emit, decimal,
}

-- No character of the text is white space.
abbrev pub NoSpace : String → Type 0
NoSpace [] = Unit
NoSpace (c ∷ s) = (is_space (code c) ≡ false) × NoSpace s

pub NoSpace-append : (s t : String) → NoSpace s → NoSpace t → NoSpace (s ++ t)
NoSpace-append [] t h k = rw nil-append k
NoSpace-append (c ∷ s) t h k = rw cons-append (h.0, NoSpace-append s t h.1 k)

trim_left-NoSpace : (s : String) → NoSpace s → trim_left s ≡ s
unfolding trim_left
trim_left-NoSpace [] h = refl
trim_left-NoSpace (c ∷ s) h = ground arith

trim_right-NoSpace : (s : String) → NoSpace s → trim_right s ≡ s
unfolding trim_right
trim_right-NoSpace [] h = refl
trim_right-NoSpace (c ∷ s) h = ground (arith, trim_right-NoSpace s)

pub trim_space-NoSpace : (s : String) → NoSpace s → trim_space s ≡ s
unfolding trim_space
trim_space-NoSpace s h = rw (trim_left-NoSpace s h) (trim_right-NoSpace s h)

digit-NoSpace : (n : ℕ) → is_space (code (digit n)) ≡ false
unfolding is_space
digit-NoSpace zero = refl
digit-NoSpace (suc zero) = refl
digit-NoSpace (suc (suc zero)) = refl
digit-NoSpace (suc (suc (suc zero))) = refl
digit-NoSpace (suc (suc (suc (suc zero)))) = refl
digit-NoSpace (suc (suc (suc (suc (suc zero))))) = refl
digit-NoSpace (suc (suc (suc (suc (suc (suc zero)))))) = refl
digit-NoSpace (suc (suc (suc (suc (suc (suc (suc zero))))))) = refl
digit-NoSpace (suc (suc (suc (suc (suc (suc (suc (suc zero)))))))) = refl
digit-NoSpace (suc (suc (suc (suc (suc (suc (suc (suc (suc n))))))))) = refl

emit-NoSpace : (fuel n : ℕ) (out : String) → NoSpace out → NoSpace (emit fuel n out)
unfolding emit
emit-NoSpace zero n out h = h
emit-NoSpace (suc fuel) n out h = ground (
  arith,
  digit-NoSpace n,
  emit-NoSpace fuel (n / 10) (digit (n % 10) ∷ out) (digit-NoSpace (n % 10), h),
)

pub decimal-NoSpace : (n : ℕ) → NoSpace (decimal n)
unfolding decimal
decimal-NoSpace n = emit-NoSpace (suc n) n [] tt
