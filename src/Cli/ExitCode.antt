-- ===== src/Cli/ExitCode.antt =====
-- The exit code of the command of src/bin/check-deadlock/main.rs, described by a list of checks.
use granite.Common.{
  ℕ, String, ◌≡◌, refl, Bool, true, false, not, ◌||◌, Option, none, some, List, [], ◌∷◌,
  if◌then◌else◌,
}
use granite.Common.Outcome.{Outcome, ok, panic, Fallible, success, failed, Run, and_then}
use granite.PetriNet.{PetriNet}
use granite.Library.{run}
use granite.Cli.{
  OutputFormat, pnml, lola, dot, CargoResult, Args, System, check_deadlock, output_path,
  note_output, create_output_file, output_then, unless_error, verdict, analyse_unless, analyse,
  export, exec, exit,
}

-- the exit code of the process, which a panic ends with the code 101 of Rust; a translation that
-- runs out of fuel, which ends in no way in the code, is counted as a panic here
abbrev pub process_code : Outcome (CargoResult × List String) → ℕ
process_code (ok (result, files)) = (exit result).code
process_code (panic e) = 101

-- the code of the first check that fails, and 0 if none fails
abbrev pub first_failure : List (Bool × ℕ) → ℕ
first_failure [] = 0
first_failure ((passed, code) ∷ checks) = if passed then first_failure checks else code

abbrev returned : {A : Type 0} → Outcome A → Bool
returned (ok a) = true
returned (panic e) = false

module _ {Net : Type 0} (system : System Net) (args : Args) where
  abbrev succeeded : Outcome (Fallible Net) → Bool
  succeeded (ok (failed err)) = false
  succeeded _ = true

  abbrev was_written : Option String → Bool
  was_written none = true
  was_written (some err) = false

  -- an output can be written, if there is a net
  abbrev written : Outcome (Fallible Net) → OutputFormat → Bool
  written (ok (success net)) format =
      was_written (system.write net format (output_path system args format))
  written _ format = true

  abbrev checks_from : Outcome (Fallible Net) → List (Bool × ℕ)
  checks_from translation =
      (returned translation, 101)
      ∷ (succeeded translation, 3)
      ∷ (not args.dot || written translation dot, 4)
      ∷ (not args.pnml || written translation pnml, 4)
      ∷ (written translation lola, 4)
      ∷ (args.skip_analysis || returned (check_deadlock system (output_path system args lola)), 101)
      ∷ []

  Exits : List (Bool × ℕ) → Outcome (CargoResult × List String) → Type 0
  Exits checks o = process_code o ≡ first_failure checks

  verdict_code : (deadlock : Bool) → (exit (verdict system args deadlock)).code ≡ 0
  unfolding verdict exit
  verdict_code true = refl
  verdict_code false = refl

  answer_code :
      (o : Outcome Bool) (files : List String)
      → Exits ((returned o, 101) ∷ []) (
          and_then
            (and_then o λ deadlock. ok (deadlock, files))
            λ (deadlock, files'). ok (verdict system args deadlock, files'))
  unfolding Exits
  answer_code (ok deadlock) files = verdict_code deadlock
  answer_code (panic e) files = refl

  analyse_code :
      (skip : Bool) (files : List String)
      → Exits
          ((skip || returned (check_deadlock system (output_path system args lola)), 101) ∷ [])
          (analyse_unless system args skip files)
  unfolding analyse_unless exit Exits
  analyse_code true files = refl
  analyse_code false files =
      answer_code (check_deadlock system (output_path system args lola)) files

  noted_code :
      (result : Option String) (format : OutputFormat) (rest : Run (List String) CargoResult)
      (checks : List (Bool × ℕ)) (files : List String)
      → ((files' : List String) → Exits checks (rest files'))
      → Exits ((was_written result, 4) ∷ checks) (
          and_then
            (note_output system args format result files)
            λ (result', files'). unless_error system args result' rest files')
  unfolding note_output unless_error exit Exits
  noted_code none format rest checks files h = h _
  noted_code (some err) format rest checks files h = refl

  output_code :
      (asked : Bool) (net : Net) (format : OutputFormat) (rest : Run (List String) CargoResult)
      (checks : List (Bool × ℕ)) (files : List String)
      → ((files' : List String) → Exits checks (rest files'))
      → Exits
          ((not asked || written (ok (success net)) format, 4) ∷ checks)
          (output_then system args asked net format rest files)
  unfolding output_then create_output_file Exits
  output_code false net format rest checks files h = h files
  output_code true net format rest checks files h =
      noted_code (system.write net format (output_path system args format)) format rest checks files
        h

  exits :
      (checks : List (Bool × ℕ)) (o : Outcome (CargoResult × List String))
      → process_code o ≡ first_failure checks
      → Exits checks o
  unfolding Exits
  exits checks o h = h

  passes :
      (code : ℕ) (checks : List (Bool × ℕ)) (o : Outcome (CargoResult × List String))
      → Exits checks o
      → Exits ((true, code) ∷ checks) o
  unfolding Exits
  passes code checks o h = h

  export_code :
      (translation : Outcome (Fallible Net))
      → Exits (checks_from translation) (
          and_then
            (and_then translation λ translation'. ok (translation', []))
            λ (translation', files). export system args translation' files)
  unfolding export exit analyse
  export_code (panic e) = exits (checks_from (panic e)) (panic e) refl
  export_code (ok (failed err)) = exits (checks_from (ok (failed err))) _ refl
  export_code (ok (success net)) =
      let lola_output = λ (files : List String).
        output_code true net lola _ _ files (analyse_code args.skip_analysis) in
      let pnml_output =
        λ (files : List String). output_code args.pnml net pnml _ _ files lola_output in
      passes 101 _ _ (passes 3 _ _ (output_code args.dot net dot _ _ [] pnml_output))

  checked :
      (passed : Bool) (code : ℕ) (checks : List (Bool × ℕ)) (x y : Run (List String) CargoResult)
      → Exits checks (x [])
      → process_code (y []) ≡ code
      → Exits ((passed, code) ∷ checks) ((if passed then x else y) [])
  unfolding Exits
  checked true code checks x y h k = h
  checked false code checks x y h k = k

module _ {Net : Type 0} ⦃api : PetriNet Net⦄ (depth rounds : ℕ) (system : System Net)
    (args : Args) where
  -- the checks in their order, each with the code of its failure
  abbrev pub expected_checks : List (Bool × ℕ)
  expected_checks =
      (system.exists args.path, 1)
      ∷ (system.exists args.output_folder, 2)
      ∷ checks_from system args (run depth rounds system.compiler args.path)

  exec-Exits : Exits system args expected_checks (exec depth rounds system args [])
  unfolding exec exit
  exec-Exits =
      checked system args (system.exists args.path) 1 _ _ _
        (checked system args (system.exists args.output_folder) 2 _ _ _
          (export_code system args (run depth rounds system.compiler args.path)) refl)
        refl

  -- The exit code of the command is 0 when all checks pass, and else that of the first that fails:
  -- 1 when the source code file is missing, 2 when the output folder is missing, 101 when the
  -- translation panics, 3 when it fails, 4 when an output that was asked for, or the one for LoLA,
  -- cannot be written, and 101 when the analysis was not skipped and the model checker does not
  -- give an answer. A translation that runs out of fuel is counted as one that panics.
  pub exec_code : process_code (exec depth rounds system args []) ≡ first_failure expected_checks
  unfolding Exits
  exec_code = exec-Exits
