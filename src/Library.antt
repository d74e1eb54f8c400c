-- ===== src/Library.antt =====
-- src/lib.rs, src/sysroot.rs and src/compiler_config.rs: the translation of one source code file in a
-- session of the compiler.
pub mod Sysroot
use granite.Common.{ℕ, String, Bool, Option, none, some}
use granite.Common.Outcome.{Outcome, ok, panic, Fallible, success, failed, no_global_ctxt, and_then}
use granite.Text.Trim.{trim}
use granite.PetriNet.{PetriNet}
use granite.Mir.{TyCtxt}
use granite.Translator.Main.{translate}

-- what `Command::output` gives: the stream that is read, if it is UTF-8, or why there is none
pub data CommandOutput : Type 0 where
  finished : Option String → CommandOutput
  not_found other_error : CommandOutput

-- rustc_interface::Config with the two options that are not the default ones
pub record Config : Type 0 where
  pub maybe_sysroot : Option String
  pub input : String

-- What becomes of a session of the compiler: its callback is not called, or it is called without or
-- with a global typing context.
pub data Session : Type 0 where
  not_entered without_context : Session
  entered : TyCtxt → Session

-- What is asked of rustc: `rustc --print=sysroot`, and a session.
pub record Compiler : Type 0 where
  pub print_sysroot : CommandOutput
  pub run_compiler : Config → Session

unfoldable pub get_from_rustc : CommandOutput → Fallible String
get_from_rustc (finished (some sysroot)) = success (trim sysroot)
get_from_rustc (finished none) =
    failed
      "Could not parse stdout to get the sysroot: Make sure you can run `rustc --print=sysroot` in a terminal"
get_from_rustc not_found =
    failed
      "Could not run rustc to get the sysroot: Make sure you can run `rustc --print=sysroot` in a terminal"
get_from_rustc other_error =
    failed
      "Could not run rustc to get the sysroot: Make sure you can run `rustc --print=sysroot` in a terminal"

abbrev pub prepare_rustc_config : (sysroot source_code_filepath : String) → Config
prepare_rustc_config sysroot source_code_filepath = record {
  maybe_sysroot = some sysroot;
  input = source_code_filepath;
}

module _ {Net : Type 0} ⦃api : PetriNet Net⦄ (depth rounds : ℕ) where
  -- the callback of the session, which sets the result
  unfoldable pub translation_result : Session → Outcome (Fallible Net)
  translation_result not_entered = ok (failed "Translation did not run")
  translation_result without_context = panic no_global_ctxt
  translation_result (entered tcx) = and_then (translate depth rounds tcx) λ net. ok (success net)

  unfoldable pub run_with :
      Compiler → (source_code_filepath : String) → Fallible String → Outcome (Fallible Net)
  unfolding translation_result
  run_with compiler source_code_filepath (failed err) = ok (failed err)
  run_with compiler source_code_filepath (success sysroot) =
      translation_result (compiler.run_compiler (prepare_rustc_config sysroot source_code_filepath))

  unfoldable pub run : Compiler → (source_code_filepath : String) → Outcome (Fallible Net)
  unfolding get_from_rustc run_with
  run compiler source_code_filepath =
      run_with compiler source_code_filepath (get_from_rustc compiler.print_sysroot)
