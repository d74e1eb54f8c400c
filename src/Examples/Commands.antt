-- ===== src/Examples/Commands.antt =====
-- Runs of the command, on a system where everything succeeds.
use granite.Common.{◌≡◌, refl, true, false, none, some, [], ◌∷◌}
use granite.Common.Outcome.{ok, success}
use granite.Text.{contains}
use granite.PetriNet.Counted.{Counted, counted_net}
use granite.Library.{Compiler, finished, not_found, entered, get_from_rustc}
use granite.Library.Sysroot.{IsSysroot, get_from_rustc-IsSysroot}
use granite.Cli.{
  Args, System, deadlock_analysis, answer, check_deadlock, note_output, create_output_file,
  output_then, unless_error, verdict, analyse, analyse_unless, export, exec,
}
use granite.Cli.Verdict.{Reports, exec-Reports}
use granite.Cli.ExitCode.{process_code, first_failure, expected_checks, exec_code}
use granite.Examples.Nets.{small_net}
use granite.Examples.Programs.{lock_program}

abbrev lock_compiler : Compiler
lock_compiler = record {
  print_sysroot = finished (some "/opt/rust\n");
  run_compiler = λ config. entered lock_program;
}

-- a system on which everything succeeds and the model checker finds a deadlock
abbrev pub calm_system : System Counted
calm_system = record {
  exists = λ p. true;
  compiler = lock_compiler;
  with_extension = λ folder filename extension. filename;
  write = λ n f p. none;
  lola = λ p. not_found;
  backup_lola = λ p. finished (some "result: yes");
}

abbrev pub plain_args : Args
plain_args = record {
  path = "main.rs";
  filename = "net";
  output_folder = ".";
  dot = true;
  pnml = false;
  skip_analysis = false;
}

get_from_rustc-IsSysroot_example :
    IsSysroot (some "/opt/rust\n") (get_from_rustc (finished (some "/opt/rust\n")))
get_from_rustc-IsSysroot_example = get_from_rustc-IsSysroot (finished (some "/opt/rust\n"))

exec-Reports_example : Reports calm_system plain_args (exec 5 5 calm_system plain_args [])
exec-Reports_example = exec-Reports 5 5 calm_system plain_args

exec_code_example :
    process_code (exec 5 5 calm_system plain_args [])
    ≡ first_failure (expected_checks 5 5 calm_system plain_args)
exec_code_example = exec_code 5 5 calm_system plain_args

-- the verdict on a small net
deadlock_found :
    export calm_system plain_args (success small_net) []
    ≡ ok (
      deadlock_analysis "Deadlock can be reached according to the model checker `LoLA`",
      "net" ∷ "net" ∷ [],
    )
unfolding export output_then unless_error create_output_file note_output analyse analyse_unless
    verdict check_deadlock answer contains
deadlock_found = refl
