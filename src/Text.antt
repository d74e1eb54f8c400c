-- ===== src/Text.antt =====
-- What the source uses of Rust's `str` and of `format!`: `replace`, `contains` and decimal numbers.
-- The names of functions and the labels of the net are native texts.
pub mod Decimal
pub mod Trim
use Prim.Native.Char.{Char, code}
use Prim.Native.String.{[], ◌∷◌, ◌++◌, count}
use granite.Common.{
  ℕ, zero, suc, ◌-◌, String, ◌≡◌, refl, Bool, true, false, ◌&&◌, ◌||◌, ◌==◌, if◌then◌else◌,
}

-- `pattern` is a prefix of the text
unfoldable pub begins : String → String → Bool
begins [] s = true
begins (p ∷ ps) [] = false
begins (p ∷ ps) (c ∷ s) = code p == code c && begins ps s

-- str::contains
unfoldable pub contains : String → String → Bool
unfolding begins
contains [] pattern = begins pattern []
contains (c ∷ s) pattern = begins pattern (c ∷ s) || contains s pattern

-- The first number counts the characters that still belong to the last match.
unfoldable pub replace_from : String → String → ℕ → String → String
unfolding begins
replace_from pattern new k [] = []
replace_from pattern new (suc k) (c ∷ s) = replace_from pattern new k s
replace_from pattern new zero (c ∷ s) =
    let hit = begins pattern (c ∷ s) in
    let rest = replace_from pattern new (if hit then count pattern - 1 else 0) s in
    if hit then new ++ rest else c ∷ rest

-- str::replace with a text: the matches from left to right, which do not overlap
unfoldable pub replace : String → String → String → String
unfolding replace_from
replace s pattern new = replace_from pattern new 0 s

-- str::replace with a set of characters and a replacement of one character
unfoldable pub replace_chars : (Char → Bool) → Char → String → String
replace_chars test new [] = []
replace_chars test new (c ∷ s) = (if test c then new else c) ∷ replace_chars test new s

-- format! with one argument between two texts
unfoldable pub format_between : String → String → String → String
format_between before argument after = before ++ (argument ++ after)

-- every character passes the test
unfoldable pub all_chars : (Char → Bool) → String → Bool
all_chars test [] = true
all_chars test (c ∷ s) = test c && all_chars test s

replace_twice : replace "a::b::::c" "::" "_" ≡ "a_b__c"
unfolding replace
replace_twice = refl

contains_inside : contains "std::sync::Arc<std::sync::Mutex<i32>>" "std::sync::Mutex<" ≡ true
unfolding contains
contains_inside = refl
