-- ===== src/Naming/Sanitize.antt =====
-- `sanitize` of src/naming.rs: function names for the labels of the DOT and LoLA formats.
pub mod Alphabet
pub mod Plain
use Prim.Native.Char.{Char, code}
use granite.Common.{String, ◌≡◌, refl, Bool, ◌||◌, ◌==◌}
use granite.Text.{replace, replace_chars}

-- the characters of the catch-all case: { } [ ] # < > and the space
abbrev pub is_special : Char → Bool
is_special c =
    code c == b'{'
    || code c == b'}'
    || code c == b'['
    || code c == b']'
    || code c == b'#'
    || code c == b'<'
    || code c == b'>'
    || code c == b' '

abbrev step : String → String → String → String
step pattern new s = replace s pattern new

pub sanitize : String → String
unfolding replace replace_chars
sanitize function_name = replace_chars is_special "_" (
    step "Result_<T, E>" "Result" (
      step "::" "_"
        (step "<'a>" "a" (step "<T, A>" "T_A" (step "[T]" "T" (step "<T>" "T" function_name))))))

sanitize_runs : sanitize "std::result::Result::<T, E>::unwrap" ≡ "std_result_Result_unwrap"
unfolding sanitize
sanitize_runs = refl
