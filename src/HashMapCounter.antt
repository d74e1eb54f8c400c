-- ===== src/HashMapCounter.antt =====
-- src/data_structures/hash_map_counter.rs: how many times each function was called so far.
-- The hash map is an association list; the program does not iterate over it.
pub mod Occurrences
use granite.Common.{ℕ, ◌+◌, String, Option, none, some, List, [], ◌∷◌, str_eq, if◌then◌else◌}

pub record HashMapCounter : Type 0 where
  pub counts : List (String × ℕ)

-- HashMap::get and HashMap::insert
unfoldable pub find_count : String → List (String × ℕ) → Option ℕ
find_count key [] = none
find_count key ((other, count) ∷ rest) =
    if str_eq other key then some count else find_count key rest

unfoldable pub set_count : String → ℕ → List (String × ℕ) → List (String × ℕ)
set_count key count [] = (key, count) ∷ []
set_count key count ((other, n) ∷ rest) =
    if str_eq other key then (key, count) ∷ rest else (other, n) ∷ set_count key count rest

unfoldable pub new : HashMapCounter
new = record { counts = [] }

unfoldable pub increment_from : Option ℕ → String → HashMapCounter → HashMapCounter
increment_from none key c = record { counts = set_count key 1 c.counts }
increment_from (some count) key c = record { counts = set_count key (count + 1) c.counts }

-- usize: the counts stay below the number of calls that were translated
unfoldable pub increment : String → HashMapCounter → HashMapCounter
unfolding increment_from
increment key c = increment_from (find_count key c.counts) key c

unfoldable pub get_count_from : Option ℕ → String → HashMapCounter → ℕ × HashMapCounter
get_count_from none key c = (0, record { counts = set_count key 0 c.counts })
get_count_from (some count) key c = (count, c)

unfoldable pub get_count : String → HashMapCounter → ℕ × HashMapCounter
unfolding get_count_from
get_count key c = get_count_from (find_count key c.counts) key c
