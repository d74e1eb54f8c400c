-- ===== src/HashMapCounter/Occurrences.antt =====
-- The counter counts the calls of `increment`.
use granite.Common.{
  ℕ, suc, ◌+◌, String, ◌≡◌, refl, ap, ◌∙◌, some, List, [], ◌∷◌, arith, str_eq, eq_iff,
  if◌then◌else◌,
}
use granite.HashMapCounter.{HashMapCounter, find_count, set_count, increment, get_count}

-- the count that is found after a write
find_count-set_count :
    (key asked : String) (count : ℕ) (counts : List (String × ℕ))
    → find_count asked (set_count key count counts)
      ≡ (if str_eq key asked then some count else find_count asked counts)
unfolding find_count set_count
find_count-set_count key asked count [] = refl
find_count-set_count key asked count ((other, n) ∷ rest) = ground (
  arith,
  find_count-set_count key asked count rest,
  eq_iff other key,
  eq_iff other asked,
  eq_iff key asked,
)

-- what `get_count` returns
abbrev pub count_of : String → HashMapCounter → ℕ
count_of key c = (get_count key c).0

module _ (key other : String) (c : HashMapCounter) where
  count-increment :
      count_of other (increment key c)
      ≡ (if str_eq key other then suc (count_of other c) else count_of other c)
  unfolding increment get_count
  count-increment = grind (arith, find_count-set_count, eq_iff)

  -- Reading a count changes no count.
  count-get_count : count_of other (get_count key c).1 ≡ count_of other c
  unfolding get_count
  count-get_count = grind (arith, find_count-set_count, eq_iff)

-- what the translation does with the counter: it reads and increments, in some order
pub data Use : Type 0 where
  read : String → Use
  bump : String → Use

unfoldable pub uses : List Use → HashMapCounter → HashMapCounter
uses [] c = c
uses (read key ∷ us) c = uses us (get_count key c).1
uses (bump key ∷ us) c = uses us (increment key c)

unfoldable pub occurrences : String → List Use → ℕ
occurrences key [] = 0
occurrences key (read j ∷ us) = occurrences key us
occurrences key (bump j ∷ us) = let n = occurrences key us in if str_eq j key then suc n else n

-- After any sequence of reads and increments, the count of a function is its old count and the
-- number of its increments in the sequence.
pub count-uses :
    (key : String) (us : List Use) (c : HashMapCounter)
    → count_of key (uses us c) ≡ count_of key c + occurrences key us
unfolding uses occurrences
count-uses key [] c = omega arith
count-uses key (read j ∷ us) c =
    count-uses key us _ ∙ ap (λ n. n + occurrences key us) (count-get_count j key c)
count-uses key (bump j ∷ us) c = count-uses key us _ ∙ ground (arith, count-increment j key c)
