-- ===== src/Cli.antt =====
-- src/bin/check-deadlock/check_deadlock.rs, output_format.rs, cargo_result.rs, main.rs and
-- src/model_checker/lola.rs: the command, over what it asks of the system.
pub mod Verdict
pub mod ExitCode
use granite.Common.{
  ℕ, String, Bool, true, false, Option, none, some, List, [], ◌∷◌, ◌++◌, if◌then◌else◌,
}
use granite.Common.Outcome.{
  Outcome, ok, panic, Fallible, success, failed, lola_not_found, lola_error, lola_not_utf8,
  lola_unknown_output, Run, pure, lift, modify, ◌>>=◌, ◌>>◌,
}
use granite.Text.{contains, format_between}
use granite.PetriNet.{PetriNet}
use granite.Library.{CommandOutput, finished, not_found, other_error, Compiler, run}

pub data OutputFormat : Type 0 where
  pnml lola dot : OutputFormat

-- Display::fmt
abbrev pub to_string : OutputFormat → String
to_string pnml = "pnml"
to_string lola = "lola"
to_string dot = "dot"

pub data CargoResult : Type 0 where
  deadlock_analysis : String → CargoResult
  simple_translation : CargoResult
  source_file_not_found : String → CargoResult
  output_folder_not_found : String → CargoResult
  translation_error : String → CargoResult
  output_generation_error : String → CargoResult

-- the options of the command, without the verbosity
pub record Args : Type 0 where
  pub path : String
  pub filename : String
  pub output_folder : String
  pub dot : Bool
  pub pnml : Bool
  pub skip_analysis : Bool

-- What the command asks of the system: files, the compiler, the export of a net (with the message of a failure), and the two places where the model checker is looked for.
pub record System (Net : Type 0) : Type 0 where
  pub exists : String → Bool
  pub compiler : Compiler
  pub with_extension : (folder filename extension : String) → String
  pub write : Net → OutputFormat → String → Option String
  pub lola : String → CommandOutput
  pub backup_lola : String → CommandOutput

-- the answer in the output of the model checker
unfoldable pub parse_answer : Option String → Outcome Bool
parse_answer none = panic lola_not_utf8
parse_answer (some stderr) =
    if contains stderr "result: yes"
    then ok true
    else if contains stderr "result: no"
    then ok false
    else panic lola_unknown_output

unfoldable pub backup_answer : CommandOutput → Outcome Bool
unfolding parse_answer
backup_answer (finished stderr) = parse_answer stderr
backup_answer not_found = panic lola_not_found
backup_answer other_error = panic lola_not_found

unfoldable pub answer : CommandOutput → CommandOutput → Outcome Bool
unfolding parse_answer backup_answer
answer (finished stderr) backup = parse_answer stderr
answer not_found backup = backup_answer backup
answer other_error backup = panic lola_error

module _ {Net : Type 0} (system : System Net) where
  unfoldable pub check_deadlock : (net_filepath : String) → Outcome Bool
  unfolding answer
  check_deadlock net_filepath = answer (system.lola net_filepath) (system.backup_lola net_filepath)

  -- The state is the list of the files written so far.
  module _ (args : Args) where
    abbrev pub output_path : OutputFormat → String
    output_path format = system.with_extension args.output_folder args.filename (to_string format)

    unfoldable pub note_output : OutputFormat → Option String → Run (List String) (Option String)
    note_output format (some err) files = ok (some err, files)
    note_output format none files = ok (none, files ++ output_path format ∷ [])

    unfoldable pub create_output_file : Net → OutputFormat → Run (List String) (Option String)
    unfolding note_output
    create_output_file net format =
        note_output format (system.write net format (output_path format))

    unfoldable pub unless_error :
        Option String → Run (List String) CargoResult → Run (List String) CargoResult
    unless_error none rest = rest
    unless_error (some err) rest = pure (output_generation_error err)

    -- one output, if it is asked for, and what comes after it if it succeeds
    unfoldable pub output_then :
        Bool → Net → OutputFormat → Run (List String) CargoResult → Run (List String) CargoResult
    output_then false net format rest = rest
    output_then true net format rest = do
      result ← create_output_file net format
      unless_error result rest

    unfoldable pub verdict : Bool → CargoResult
    verdict true = deadlock_analysis "Deadlock can be reached according to the model checker `LoLA`"
    verdict false =
        deadlock_analysis "The program is deadlock-free according to the model checker `LoLA`"

    unfoldable pub analyse_unless : Bool → Run (List String) CargoResult
    analyse_unless true = pure simple_translation
    analyse_unless false = do
      deadlock ← lift (check_deadlock (output_path lola))
      pure (verdict deadlock)

    unfoldable pub analyse : Run (List String) CargoResult
    unfolding analyse_unless
    analyse = analyse_unless args.skip_analysis

    unfoldable pub export : Fallible Net → Run (List String) CargoResult
    export (failed err) = pure (translation_error err)
    export (success net) =
        output_then args.dot net dot
          (output_then args.pnml net pnml (output_then true net lola analyse))

module _ {Net : Type 0} ⦃api : PetriNet Net⦄ (depth rounds : ℕ) (system : System Net)
    (args : Args) where
  unfoldable pub exec : Run (List String) CargoResult
  unfolding format_between run
  exec =
      if system.exists args.path
      then (if system.exists args.output_folder
          then (do
            translation ← lift (run depth rounds system.compiler args.path)
            export system args translation)
          else pure (
              output_folder_not_found
                (format_between "Output folder at " args.output_folder " does not exist")))
      else pure (
          source_file_not_found (format_between "Source code file at " args.path " does not exist"))

-- what the process prints on its two streams, and its exit code
pub record Exit : Type 0 where
  pub stdout : List String
  pub stderr : List String
  pub code : ℕ

-- `main`: the last match prints and exits. A panic ends the process with the code 101 of Rust.
unfoldable pub exit : CargoResult → Exit
unfolding format_between
exit (source_file_not_found err) = record { stdout = []; stderr = err ∷ []; code = 1 }
exit (output_folder_not_found err) = record { stdout = []; stderr = err ∷ []; code = 2 }
exit (translation_error err) = record { stdout = []; stderr = err ∷ []; code = 3 }
exit (output_generation_error err) = record { stdout = []; stderr = err ∷ []; code = 4 }
exit (deadlock_analysis message) = record {
  stdout = format_between "Result: " message "" ∷ [];
  stderr = [];
  code = 0;
}
exit simple_translation = record { stdout = []; stderr = []; code = 0 }
