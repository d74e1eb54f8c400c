-- ===== src/Cli/Verdict.antt =====
-- What the command of src/bin/check-deadlock/check_deadlock.rs reports, and which files it leaves.
use granite.Common.{
  ℕ, String, ◌≡◌, refl, Bool, true, false, Option, none, some, ◌⊎◌, inl, inr, List, [], ◌∷◌, ◌++◌,
  if◌then◌else◌,
}
use granite.Common.Outcome.{
  Outcome, ok, panic, Fallible, success, failed, Run, and_then, lola_unknown_output,
}
use granite.Text.{contains}
use granite.PetriNet.{PetriNet}
use granite.Library.{CommandOutput, finished, not_found, other_error, run}
use granite.Cli.{
  OutputFormat, pnml, lola, dot, CargoResult, deadlock_analysis, simple_translation, Args, System,
  parse_answer, backup_answer, answer, check_deadlock, output_path, note_output, create_output_file,
  output_then, unless_error, verdict, analyse_unless, analyse, export, exec,
}

-- what a message says of the output of the model checker: a deadlock is reported exactly when the
-- output has the line "result: yes", and freedom from deadlocks when it has "result: no" only
abbrev pub Means : (stderr message : String) → Type 0
Means stderr message =
    ((contains stderr "result: yes" ≡ true)
      × (message ≡ "Deadlock can be reached according to the model checker `LoLA`"))
    ⊎ ((contains stderr "result: yes" ≡ false)
        × (contains stderr "result: no" ≡ true)
        × (message ≡ "The program is deadlock-free according to the model checker `LoLA`"))

-- the answer that stands in the output
abbrev Answers : String → Bool → Type 0
Answers stderr true = contains stderr "result: yes" ≡ true
Answers stderr false =
    (contains stderr "result: yes" ≡ false) × (contains stderr "result: no" ≡ true)

tested-Answers :
    (stderr : String) (first second : Bool)
    → contains stderr "result: yes" ≡ first
    → contains stderr "result: no" ≡ second
    → (deadlock : Bool)
    → (if first then ok true else if second then ok false else panic lola_unknown_output)
      ≡ ok deadlock
    → Answers stderr deadlock
tested-Answers stderr true second e₁ e₂ true h = e₁
tested-Answers stderr true second e₁ e₂ false h = cc
tested-Answers stderr false true e₁ e₂ true h = cc
tested-Answers stderr false true e₁ e₂ false h = (e₁, e₂)
tested-Answers stderr false false e₁ e₂ deadlock h = cc

parse_answer-Answers :
    (stderr : String) (deadlock : Bool)
    → parse_answer (some stderr) ≡ ok deadlock
    → Answers stderr deadlock
unfolding parse_answer
parse_answer-Answers stderr deadlock h = tested-Answers stderr _ _ refl refl deadlock h

no_answer : (deadlock : Bool) → parse_answer none ≡ ok deadlock → ⊥
unfolding parse_answer
no_answer deadlock h = cc

module _ {Net : Type 0} (system : System Net) (args : Args) where
  abbrev pub add_file : Bool → OutputFormat → List String → List String
  add_file true format files = files ++ output_path system args format ∷ []
  add_file false format files = files

  -- the requested files in the order in which they are written
  abbrev pub requested_files : List String
  requested_files = add_file true lola (add_file args.pnml pnml (add_file args.dot dot []))

  -- what the model checker wrote on `stderr` for the LoLA file: that of the command `lola`, or of
  -- the copy that is tried when there is no such command
  abbrev pub Said : String → Type 0
  Said stderr =
      (system.lola (output_path system args lola) ≡ finished (some stderr))
      ⊎ ((system.lola (output_path system args lola) ≡ not_found)
          × (system.backup_lola (output_path system args lola) ≡ finished (some stderr)))

  -- A successful result means that every requested file was written; a verdict is the answer that
  -- the model checker gave on the file in LoLA format.
  abbrev pub Reports : Outcome (CargoResult × List String) → Type 0
  Reports (panic e) = Unit
  Reports (ok (deadlock_analysis message, files)) =
      (files ≡ requested_files)
      × (args.skip_analysis ≡ false)
      × ((stderr : String) × Said stderr × Means stderr message)
  Reports (ok (simple_translation, files)) = (files ≡ requested_files) × (args.skip_analysis ≡ true)
  Reports (ok (_, files)) = Unit

  verdict-Reports :
      (stderr : String)
      → args.skip_analysis ≡ false
      → Said stderr
      → (deadlock : Bool) → Answers stderr deadlock
      → Reports (ok (verdict system args deadlock, requested_files))
  unfolding verdict
  verdict-Reports stderr kept said true h = (refl, kept, (stderr, said, inl (h, refl)))
  verdict-Reports stderr kept said false h = (refl, kept, (stderr, said, inr (h.0, h.1, refl)))

  answer-Said :
      (first backup : CommandOutput)
      → system.lola (output_path system args lola) ≡ first
      → system.backup_lola (output_path system args lola) ≡ backup
      → (deadlock : Bool) → answer first backup ≡ ok deadlock
      → (stderr : String) × Said stderr × Answers stderr deadlock
  unfolding answer backup_answer
  answer-Said (finished none) backup e₁ e₂ deadlock h = elim (no_answer deadlock h) [ ]
  answer-Said (finished (some stderr)) backup e₁ e₂ deadlock h =
      (stderr, inl e₁, parse_answer-Answers stderr deadlock h)
  answer-Said not_found (finished none) e₁ e₂ deadlock h = elim (no_answer deadlock h) [ ]
  answer-Said not_found (finished (some stderr)) e₁ e₂ deadlock h =
      (stderr, inr (e₁, e₂), parse_answer-Answers stderr deadlock h)
  answer-Said not_found not_found e₁ e₂ deadlock h = cc
  answer-Said not_found other_error e₁ e₂ deadlock h = cc
  answer-Said other_error backup e₁ e₂ deadlock h = cc

  answer-Reports :
      (o : Outcome Bool)
      → args.skip_analysis ≡ false
      → check_deadlock system (output_path system args lola) ≡ o
      → Reports (
          and_then
            (and_then o λ deadlock. ok (deadlock, requested_files))
            λ (deadlock, files). ok (verdict system args deadlock, files))
  unfolding check_deadlock
  answer-Reports (ok deadlock) kept e =
      let (stderr, said, h) = answer-Said _ _ refl refl deadlock e in
      verdict-Reports stderr kept said deadlock h
  answer-Reports (panic e') kept e = tt

  analyse_unless-Reports :
      (skip : Bool)
      → args.skip_analysis ≡ skip
      → Reports (analyse_unless system args skip requested_files)
  unfolding analyse_unless
  analyse_unless-Reports true e = (refl, e)
  analyse_unless-Reports false e =
      answer-Reports (check_deadlock system (output_path system args lola)) e refl

  analyse-Reports : Reports (analyse system args requested_files)
  unfolding analyse
  analyse-Reports = analyse_unless-Reports args.skip_analysis refl

  -- one output
  noted-Reports :
      (written : Option String) (format : OutputFormat) (rest : Run (List String) CargoResult)
      (files : List String)
      → Reports (rest (add_file true format files))
      → Reports (
          and_then
            (note_output system args format written files)
            λ (result, files'). unless_error system args result rest files')
  unfolding note_output unless_error
  noted-Reports none format rest files h = h
  noted-Reports (some err) format rest files h = tt

  output_then-Reports :
      (asked : Bool) (net : Net) (format : OutputFormat) (rest : Run (List String) CargoResult)
      (files : List String)
      → Reports (rest (add_file asked format files))
      → Reports (output_then system args asked net format rest files)
  unfolding output_then create_output_file
  output_then-Reports false net format rest files h = h
  output_then-Reports true net format rest files h =
      noted-Reports (system.write net format (output_path system args format)) format rest files h

  export-Reports : (translation : Fallible Net) → Reports (export system args translation [])
  unfolding export
  export-Reports (failed err) = tt
  export-Reports (success net) = output_then-Reports args.dot net dot _ [] (
      output_then-Reports args.pnml net pnml _ _
        (output_then-Reports true net lola _ _ analyse-Reports))

  exported-Reports :
      (o : Outcome (Fallible Net))
      → Reports (
          and_then
            (and_then o λ translation. ok (translation, []))
            λ (translation, files). export system args translation files)
  exported-Reports (ok translation) = export-Reports translation
  exported-Reports (panic e) = tt

module _ {Net : Type 0} ⦃api : PetriNet Net⦄ (depth rounds : ℕ) (system : System Net)
    (args : Args) where
  tested-Reports :
      (there : Bool) (x y : Run (List String) CargoResult)
      → Reports system args (x [])
      → Reports system args (y [])
      → Reports system args ((if there then x else y) [])
  tested-Reports true x y h k = h
  tested-Reports false x y h k = k

  -- Whatever the system answers, a verdict of the command comes with all the files that were asked
  -- for, written in the order DOT, PNML, LoLA, and is not given when the analysis is skipped. It
  -- says that a deadlock can be reached when what the model checker wrote on the LoLA file contains
  -- "result: yes", and that the program is free of deadlocks when it contains "result: no" only;
  -- the model checker is the command `lola`, or its copy when there is no such command. A result
  -- without analysis comes with all the files too, and only when the analysis is skipped.
  pub exec-Reports : Reports system args (exec depth rounds system args [])
  unfolding exec
  exec-Reports =
      tested-Reports (system.exists args.path) _ _
        (tested-Reports (system.exists args.output_folder) _ _
          (exported-Reports system args (run depth rounds system.compiler args.path)) tt)
        tt
