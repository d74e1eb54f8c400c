-- ===== src/Library/Sysroot.antt =====
-- The sysroot that src/sysroot.rs finds.
use Prim.Native.String.{◌++◌}
use granite.Common.{String, ◌≡◌, true, Option, none, some}
use granite.Common.Outcome.{Fallible, success, failed}
use granite.Text.{all_chars}
use granite.Text.Trim.{is_whitespace, starts_clean, ends_clean, front, back, trim_start, trim_lem}
use granite.Library.{CommandOutput, finished, not_found, other_error, get_from_rustc}

-- what the command printed, if it ran and printed UTF-8
abbrev pub printed : CommandOutput → Option String
printed (finished stdout) = stdout
printed not_found = none
printed other_error = none

-- A sysroot that is found is what was printed, without the white space around it.
abbrev pub IsSysroot : Option String → Fallible String → Type 0
IsSysroot (some stdout) (success root) =
    (starts_clean root ≡ true)
    × (ends_clean root ≡ true)
    × ((before : String) × (after : String) × (all_chars is_whitespace before ≡ true)
        × (all_chars is_whitespace after ≡ true)
        × (before ++ (root ++ after) ≡ stdout))
IsSysroot none (failed err) = Unit
IsSysroot none (success root) = ⊥
IsSysroot (some stdout) (failed err) = ⊥

-- The sysroot is found exactly when the command runs and prints UTF-8. It is then what remains of
-- the printed text when the white space before it and after it is taken away, with none left at its
-- ends.
pub get_from_rustc-IsSysroot :
    (output : CommandOutput) → IsSysroot (printed output) (get_from_rustc output)
unfolding get_from_rustc
get_from_rustc-IsSysroot (finished (some stdout)) =
    let (whole, before, after, starts, ends) = trim_lem stdout in
    (starts, ends, (front stdout, back (trim_start stdout), before, after, whole))
get_from_rustc-IsSysroot (finished none) = tt
get_from_rustc-IsSysroot not_found = tt
get_from_rustc-IsSysroot other_error = tt
