-- ===== src/Examples/Waits.antt =====
-- The postprocessing of a program with a mutex and a call of `wait`.
use granite.Common.{◌≡◌, length, [], All}
use granite.Common.Outcome.{ok}
use granite.PetriNet.Counted.{Counted, counted_net, counted_laws}
use granite.Translator.{Translator}
use granite.Translator.Postprocessing.Links.{expected_links, make_links}
use granite.Safety.Listed.{Registered, down_from}
use granite.Translator.Threads.{before_postprocessing}
use granite.Safety.Linked.{translate-linked}
use granite.Safety.Finished.{before_postprocessing-empty}
use granite.Examples.Programs.{wait_program}
use granite.Examples.Runs.{wait_net, wait_translates}

translate-linked_example :
    (s : Translator Counted) × (before_postprocessing 5 5 wait_program ≡ ok s)
    × (make_links s.objects
          (expected_links (down_from (length s.objects.mutexes)) s.postprocessing)
          s.net
        ≡ ok (tt, wait_net))
    × All (Registered s.postprocessing) s.objects.condvars
translate-linked_example = translate-linked counted_laws 5 5 wait_program wait_net wait_translates

finished : (s : Translator Counted) × (before_postprocessing 5 5 wait_program ≡ ok s)
finished =
    let (s, e, _, _) = translate-linked counted_laws 5 5 wait_program wait_net wait_translates in
    (s, e)

before_postprocessing-empty_example : (finished.0.threads ≡ []) × (finished.0.call_stack.items ≡ [])
before_postprocessing-empty_example =
    before_postprocessing-empty counted_laws 5 5 wait_program finished.0 finished.1
