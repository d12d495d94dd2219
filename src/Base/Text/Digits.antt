-- ===== src/Base/Text/Digits.antt =====
-- A reader of decimal numbers, and that it reads back what `decimal` prints. It stands for no code
-- of the repository: the concrete version library of the examples is built from it.
use Prim.Native.Char.{code}
use Prim.Native.String.{String, [], ◌∷◌, ◌++◌}
use Prim.Native.Nat.{ℕ, zero, suc, ◌+◌, ◌-◌, ◌*◌, ◌/◌, ◌%◌, ◌<◌}
use mathlib.Core.Path.{◌≡◌, refl, ◌∙◌, ap}
use mathlib.Core.Logic.{inl, inr}
use mathlib.Core.Bool.{◌&&◌}
use text.Mathlib.TextLemmas.{nil-append, cons-append}
use native.Mathlib.Omega.{arith}
use kubernetes_upgrade_opera.Base.Tests.{leb, ltb, ltb→lt, Bool-cases, if◌then◌else◌}
use kubernetes_upgrade_opera.Base.Text.{digit, emit, decimal}

-- The number that the leading digits spell behind `n`, and the text behind them.
unfoldable pub scan : ℕ → String → ℕ × String
scan n [] = (n, [])
scan n (c ∷ s) =
    let rest = scan (n * 10 + (code c - b'0')) s in
    if leb b'0' (code c) && leb (code c) b'9' then rest else (n, c ∷ s)

scan-digit : (n d : ℕ) (s : String) → d < 10 → scan n (digit d ∷ s) ≡ scan (n * 10 + d) s
unfolding scan
scan-digit n zero s h = refl
scan-digit n (suc zero) s h = refl
scan-digit n (suc (suc zero)) s h = refl
scan-digit n (suc (suc (suc zero))) s h = refl
scan-digit n (suc (suc (suc (suc zero)))) s h = refl
scan-digit n (suc (suc (suc (suc (suc zero))))) s h = refl
scan-digit n (suc (suc (suc (suc (suc (suc zero)))))) s h = refl
scan-digit n (suc (suc (suc (suc (suc (suc (suc zero))))))) s h = refl
scan-digit n (suc (suc (suc (suc (suc (suc (suc (suc zero)))))))) s h = refl
scan-digit n (suc (suc (suc (suc (suc (suc (suc (suc (suc m))))))))) s h =
    let e : m ≡ 0 = omega arith in rw e refl

emit-scan : (fuel n : ℕ) (out : String) → n < fuel → scan 0 (emit fuel n out) ≡ scan n out
unfolding emit
emit-scan zero n out h = elim h [ ]
emit-scan (suc fuel) n out h = elim (Bool-cases (ltb n 10)) [
  | inl small ↦
      rw small (scan-digit 0 n out (ltb→lt n 10 small) ∙ ap (λ (t : ℕ). scan t out) (omega arith))
  | inr big ↦ rw big (
      emit-scan fuel (n / 10) (digit (n % 10) ∷ out) (ground arith)
      ∙ scan-digit (n / 10) (n % 10) out (omega arith)
      ∙ ap (λ (t : ℕ). scan t out) (omega arith))
]

emit-append : (fuel n : ℕ) (out more : String) → emit fuel n out ++ more ≡ emit fuel n (out ++ more)
unfolding emit
emit-append zero n out more = refl
emit-append (suc fuel) n out more = elim (Bool-cases (ltb n 10)) [
  | inl small ↦ rw small (cons-append (digit n) out more)
  | inr big ↦ rw big (
      emit-append fuel (n / 10) (digit (n % 10) ∷ out) more
      ∙ ap (emit fuel (n / 10)) (cons-append (digit (n % 10)) out more))
]

-- What `decimal` prints is read back, whatever follows it.
pub decimal-scan : (n : ℕ) (out : String) → scan 0 (decimal n ++ out) ≡ scan n out
unfolding decimal
decimal-scan n out =
    ap (scan 0) (emit-append (suc n) n [] out ∙ ap (emit (suc n) n) (nil-append out))
    ∙ emit-scan (suc n) n out (omega arith)
