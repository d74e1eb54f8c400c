-- ===== src/Examples/Drops.antt =====
-- The drop of a guard, with a cleanup block, in a function with three blocks.
use granite.Common.{refl, [], ◌∷◌}
use granite.Common.Outcome.Returns.{Returns}
use granite.PetriNet.Counted.{Counted, counted_net, counted_laws}
use granite.Mir.{local_place, place_eq, cleanup}
use granite.Memory.Map
use granite.MirFunction.{get_active_block}
use granite.MirFunction.Blocks
use granite.Translator.{Translator}
use granite.Translator.Visitor.{visit_drop}
use granite.Translator.Drops.{Dropping, DropNet, visit_drop-DropNet}
use granite.Examples.Nets.{small_net, small_mutex, small_context, small_block, small_frame}
use granite.Examples.Programs.{lock_program}

abbrev dropping_translator : Translator Counted
dropping_translator = record {
  tcx = lock_program;
  net = small_net;
  program_start = 0;
  program_end = 1;
  program_panic = 2;
  call_stack = record { items = small_frame.function ∷ [] };
  function_counter = record { counts = [] };
  threads = [];
  postprocessing = [];
  objects = small_context.store.objects;
}

dropping :
    Dropping counted_laws dropping_translator small_frame.function []
      (small_block 0)
      (small_block 1)
      1
      (local_place 2)
      0
      small_mutex
unfolding get_active_block Blocks.get Map.get place_eq
dropping = record {
  top = refl;
  active = refl;
  target_block = refl;
  linked = refl;
  object = refl;
  active_place = refl;
  target_place = refl;
  mutex_place = refl;
}

visit_drop-DropNet_example :
    Returns
      (λ (_, s').
        DropNet counted_laws dropping_translator small_frame.function []
          (small_block 0)
          (small_block 1)
          1
          (local_place 2)
          0
          small_mutex
          dropping
          (cleanup 2)
          (small_block 2)
          small_net.seen
          s'.net.seen)
      (visit_drop (local_place 2) 1 (cleanup 2) dropping_translator)
unfolding Blocks.get
visit_drop-DropNet_example =
    visit_drop-DropNet counted_laws dropping_translator small_frame.function [] (small_block 0)
      (small_block 1) 1 (local_place 2) 0 small_mutex dropping (cleanup 2) (small_block 2)
      (refl, refl)
