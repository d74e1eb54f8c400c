-- ===== src/Naming/Sanitize/Plain.antt =====
-- The names that `sanitize` of src/naming.rs leaves as they are.
use Prim.Native.Char.{Char, code}
use Prim.Native.String.{[], ◌∷◌}
use granite.Common.{
  String, ◌≡◌, refl, ap, Bool, true, false, not, ◌&&◌, ◌==◌, arith, inl, inr, Bool-cases,
}
use granite.Text.{begins, replace_from, replace, replace_chars, all_chars}
use granite.Naming.Sanitize.{is_special, sanitize}

-- neither a colon nor one of the eight characters of the last replacement
abbrev pub is_plain : Char → Bool
is_plain c = not (code c == b':') && not (is_special c)

both_true : (a b : Bool) → (a && b) ≡ true → (a ≡ true) × (b ≡ true)
both_true a b h = (ground (arith, h), ground (arith, h))

of_not : (a : Bool) → not a ≡ true → a ≡ false
of_not a h = ground (arith, h)

same_code-is_plain :
    (p c : Char) → (code p == code c) ≡ true → is_plain c ≡ true → is_plain p ≡ true
same_code-is_plain p c e h = ground (arith, e, h)

-- a text without a character of the pattern does not begin with it
begins-is_plain :
    (pattern s : String)
    → all_chars is_plain pattern ≡ false
    → all_chars is_plain s ≡ true
    → begins pattern s ≡ false
unfolding begins all_chars
begins-is_plain [] s h k = cc
begins-is_plain (p ∷ ps) [] h k = refl
begins-is_plain (p ∷ ps) (c ∷ s) h k =
    let (first, rest) = both_true (is_plain c) (all_chars is_plain s) k in
    elim (Bool-cases (code p == code c)) [
      | inl e ↦
          let left : all_chars is_plain ps ≡ false =
            ground (arith, h, same_code-is_plain p c e first) in
          ground (arith, begins-is_plain ps s left rest)
      | inr e ↦ ground (arith, e)
    ]

replace_from-is_plain :
    (pattern new s : String)
    → all_chars is_plain pattern ≡ false
    → all_chars is_plain s ≡ true
    → replace_from pattern new 0 s ≡ s
unfolding replace_from all_chars
replace_from-is_plain pattern new [] h k = refl
replace_from-is_plain pattern new (c ∷ s) h k =
    let (first, rest) = both_true (is_plain c) (all_chars is_plain s) k in
    rw (begins-is_plain pattern (c ∷ s) h k)
      (ap (λ x. c ∷ x) (replace_from-is_plain pattern new s h rest))

replace_chars-is_plain :
    (s : String) → all_chars is_plain s ≡ true → replace_chars is_special "_" s ≡ s
unfolding replace_chars all_chars
replace_chars-is_plain [] k = refl
replace_chars-is_plain (c ∷ s) k =
    let (first, rest) = both_true (is_plain c) (all_chars is_plain s) k in
    let (_, other) = both_true (not (code c == b':')) (not (is_special c)) first in
    rw (of_not (is_special c) other, replace_chars-is_plain s rest) refl

-- A name without a colon and without one of the eight characters of the last replacement is not
-- changed.
pub sanitize-is_plain :
    (function_name : String)
    → all_chars is_plain function_name ≡ true
    → sanitize function_name ≡ function_name
unfolding sanitize replace all_chars
sanitize-is_plain s k =
    rw
      (
        replace_from-is_plain "<T>" "T" s refl k,
        replace_from-is_plain "[T]" "T" s refl k,
        replace_from-is_plain "<T, A>" "T_A" s refl k,
        replace_from-is_plain "<'a>" "a" s refl k,
        replace_from-is_plain "::" "_" s refl k,
        replace_from-is_plain "Result_<T, E>" "Result" s refl k,
      )
      (replace_chars-is_plain s k)
