-- ===== src/Text/Decimal.antt =====
-- The decimal form of a `usize` in a `format!`.
use Prim.Native.Char.{Char, code}
use Prim.Native.String.{[], ◌∷◌}
use granite.Common.{
  ℕ, zero, suc, ◌+◌, ◌-◌, ◌*◌, ◌/◌, ◌%◌, ◌<◌, String, ◌≡◌, refl, sym, ap, ◌∙◌, inl, inr, arith, ltb,
  Bool-cases, if◌then◌else◌,
}

abbrev digit : ℕ → Char
digit zero = "0"
digit (suc zero) = "1"
digit (suc (suc zero)) = "2"
digit (suc (suc (suc zero))) = "3"
digit (suc (suc (suc (suc zero)))) = "4"
digit (suc (suc (suc (suc (suc zero))))) = "5"
digit (suc (suc (suc (suc (suc (suc zero)))))) = "6"
digit (suc (suc (suc (suc (suc (suc (suc zero))))))) = "7"
digit (suc (suc (suc (suc (suc (suc (suc (suc zero)))))))) = "8"
digit (suc (suc (suc (suc (suc (suc (suc (suc (suc n))))))))) = "9"

-- the digits from the last one on; the fuel bounds their number
digits : ℕ → ℕ → String → String
digits zero n later = later
digits (suc fuel) n later =
    let rest = digits fuel (n / 10) (digit (n % 10) ∷ later) in
    if ltb n 10 then digit n ∷ later else rest

unfoldable pub decimal : ℕ → String
unfolding digits
decimal n = digits (suc n) n []

-- the number that the digits stand for, behind those that were read
value : ℕ → String → ℕ
value n [] = n
value n (c ∷ s) = value (n * 10 + (code c - 48)) s

code-digit : (d : ℕ) → d < 10 → code (digit d) - 48 ≡ d
code-digit zero h = refl
code-digit (suc zero) h = refl
code-digit (suc (suc zero)) h = refl
code-digit (suc (suc (suc zero))) h = refl
code-digit (suc (suc (suc (suc zero)))) h = refl
code-digit (suc (suc (suc (suc (suc zero))))) h = refl
code-digit (suc (suc (suc (suc (suc (suc zero)))))) h = refl
code-digit (suc (suc (suc (suc (suc (suc (suc zero))))))) h = refl
code-digit (suc (suc (suc (suc (suc (suc (suc (suc zero)))))))) h = refl
code-digit (suc (suc (suc (suc (suc (suc (suc (suc (suc n))))))))) h = omega arith

value-digits :
    (fuel n : ℕ) (later : String) → n < fuel → value 0 (digits fuel n later) ≡ value n later
unfolding value digits
value-digits zero n later h = elim h [ ]
value-digits (suc fuel) n later h = elim (Bool-cases (ltb n 10)) [
  | inl small ↦ rw small (ap (λ k. value k later) (omega (arith, code-digit n (ground arith))))
  | inr large ↦ rw large (
      value-digits fuel (n / 10) (digit (n % 10) ∷ later) (ground arith)
      ∙ ap (λ k. value k later) (omega (arith, code-digit (n % 10) (omega arith))))
]

value-decimal : (n : ℕ) → value 0 (decimal n) ≡ n
unfolding value decimal
value-decimal n = value-digits (suc n) n [] (omega arith)

-- Different numbers have different decimal forms.
pub decimal-injective : (m n : ℕ) → decimal m ≡ decimal n → m ≡ n
decimal-injective m n h = sym (value-decimal m) ∙ ap (value 0) h ∙ value-decimal n

decimal_runs : decimal 1070 ≡ "1070"
unfolding decimal
decimal_runs = refl
