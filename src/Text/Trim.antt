-- ===== src/Text/Trim.antt =====
-- `str::trim`: the text without the white space at its ends.
use Prim.Native.Char.{Char, code}
use Prim.Native.String.{[], ◌∷◌, ◌++◌}
use text.Mathlib.TextLemmas.{nil-append, cons-append}
use granite.Common.{
  String, ◌≡◌, refl, ap, ◌∙◌, sym, Bool, true, false, ◌&&◌, ◌||◌, not, ◌==◌, leb, if◌then◌else◌,
  inl, inr, Bool-cases, arith,
}
use granite.Text.{all_chars}

-- char::is_whitespace: the characters with the Unicode property White_Space
unfoldable pub is_whitespace : Char → Bool
is_whitespace c =
    (leb 0x9 (code c) && leb (code c) 0xD)
    || code c == 0x20
    || code c == 0x85
    || code c == 0xA0
    || code c == 0x1680
    || (leb 0x2000 (code c) && leb (code c) 0x200A)
    || code c == 0x2028
    || code c == 0x2029
    || code c == 0x202F
    || code c == 0x205F
    || code c == 0x3000

unfoldable pub trim_start : String → String
trim_start [] = []
trim_start (c ∷ s) = if is_whitespace c then trim_start s else c ∷ s

unfoldable pub is_empty : String → Bool
is_empty [] = true
is_empty (c ∷ s) = false

unfoldable pub trim_end : String → String
unfolding is_empty
trim_end [] = []
trim_end (c ∷ s) =
    let rest = trim_end s in if is_empty rest && is_whitespace c then [] else c ∷ rest

unfoldable pub trim : String → String
unfolding trim_start trim_end
trim s = trim_end (trim_start s)

trim_path : trim " /opt/rust lib\n" ≡ "/opt/rust lib"
unfolding trim is_whitespace
trim_path = refl

-- the white space at the two ends
unfoldable pub front : String → String
front [] = []
front (c ∷ s) = if is_whitespace c then c ∷ front s else []

unfoldable pub back : String → String
unfolding trim_end
back [] = []
back (c ∷ s) = if is_empty (trim_end s) && is_whitespace c then c ∷ back s else back s

-- no white space at the start, and none at the end
abbrev pub starts_clean : String → Bool
starts_clean [] = true
starts_clean (c ∷ s) = not (is_whitespace c)

abbrev pub ends_clean : String → Bool
ends_clean [] = true
ends_clean (c ∷ []) = not (is_whitespace c)
ends_clean (c ∷ d ∷ s) = ends_clean (d ∷ s)

trim_start_lem :
    (s : String)
    → (front s ++ trim_start s ≡ s)
      × (all_chars is_whitespace (front s) ≡ true)
      × (starts_clean (trim_start s) ≡ true)
unfolding front trim_start all_chars
trim_start_lem [] = (nil-append [], refl, refl)
trim_start_lem (c ∷ s) = elim (Bool-cases (is_whitespace c)) [
  | inl e ↦
      let (whole, white, clean) = trim_start_lem s in
      rw e (cons-append c (front s) (trim_start s) ∙ ap (λ t. c ∷ t) whole, rw e white, clean)
  | inr e ↦ rw e (nil-append (c ∷ s), refl, rw e refl)
]

ends_clean-cons :
    (c : Char) (r : String)
    → (is_empty r && is_whitespace c) ≡ false
    → ends_clean r ≡ true
    → ends_clean (c ∷ r) ≡ true
unfolding is_empty
ends_clean-cons c [] h k = rw h refl
ends_clean-cons c (d ∷ r) h k = k

starts_clean-trim_end : (s : String) → starts_clean s ≡ true → starts_clean (trim_end s) ≡ true
unfolding trim_end
starts_clean-trim_end [] h = refl
starts_clean-trim_end (c ∷ s) h = ground (arith, Bool-cases (is_empty (trim_end s)))

and_left : (a b : Bool) → (a && b) ≡ true → a ≡ true
and_left a b h = ground arith

and_right : (a b : Bool) → (a && b) ≡ true → b ≡ true
and_right a b h = ground arith

empty_lem : (s : String) → is_empty s ≡ true → s ≡ []
unfolding is_empty
empty_lem [] h = refl
empty_lem (c ∷ s) h = cc

only_back :
    (c : Char) (s : String)
    → is_empty (trim_end s) ≡ true
    → trim_end s ++ back s ≡ s
    → [] ++ (c ∷ back s) ≡ c ∷ s
only_back c s none_left whole =
    nil-append (c ∷ back s)
    ∙ ap (λ t. c ∷ t)
        (sym (nil-append (back s))
          ∙ ap (λ t. t ++ back s) (sym (empty_lem (trim_end s) none_left))
          ∙ whole)

trim_end_lem :
    (s : String)
    → (trim_end s ++ back s ≡ s)
      × (all_chars is_whitespace (back s) ≡ true)
      × (ends_clean (trim_end s) ≡ true)
unfolding back trim_end all_chars
trim_end_lem [] = (nil-append [], refl, refl)
trim_end_lem (c ∷ s) = elim (Bool-cases (is_empty (trim_end s) && is_whitespace c)) [
  | inl e ↦
      let (whole, white, clean) = trim_end_lem s in
      rw e (
        only_back c s (and_left (is_empty (trim_end s)) (is_whitespace c) e) whole,
        rw (and_right (is_empty (trim_end s)) (is_whitespace c) e) white,
        refl,
      )
  | inr e ↦
      let (whole, white, clean) = trim_end_lem s in
      rw e (
        cons-append c (trim_end s) (back s) ∙ ap (λ t. c ∷ t) whole,
        white,
        ends_clean-cons c (trim_end s) e clean,
      )
]

-- A text is what is trimmed, between white space; what is trimmed has no white space at its ends.
pub trim_lem :
    (s : String)
    → (front s ++ (trim s ++ back (trim_start s)) ≡ s)
      × (all_chars is_whitespace (front s) ≡ true)
      × (all_chars is_whitespace (back (trim_start s)) ≡ true)
      × (starts_clean (trim s) ≡ true)
      × (ends_clean (trim s) ≡ true)
unfolding trim
trim_lem s =
    let (whole, white, clean) = trim_start_lem s in
    let (whole', white', clean') = trim_end_lem (trim_start s) in
    (
      ap (λ t. front s ++ t) whole' ∙ whole,
      white,
      white',
      starts_clean-trim_end (trim_start s) clean,
      clean',
    )
