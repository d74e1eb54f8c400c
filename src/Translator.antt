-- ===== src/Translator.antt =====
-- src/translator.rs: the state of the translation. The handlers are in `Calls`, `Special` and
-- `Visitor`, the loops in `Main`.
pub mod Special
pub mod Calls
pub mod Visitor
pub mod Postprocessing
pub mod Main
pub mod Threads
pub mod Drops
use granite.Common.{ℕ, String, Option, none, some, List, []}
use granite.Common.Outcome.{Outcome, ok, and_then, Run, pure, lift, ◌>>=◌, ◌>>◌}
use granite.Naming.{program_start, program_end, program_panic}
use granite.PetriNet.{PlaceRef, PetriNet, add_place, add_token}
use granite.Stack
use granite.Stack.{Stack}
use granite.HashMapCounter
use granite.HashMapCounter.{HashMapCounter}
use granite.Mir.{DefId, TyCtxt}
use granite.Objects.{ThreadRef, Objects, no_objects}
use granite.Function.{PostprocessingTask}
use granite.Context.{Context}
use granite.MirFunction
use granite.MirFunction.{MirFunction, Frame}

pub record Translator (Net : Type 0) : Type 0 where
  pub tcx : TyCtxt
  pub net : Net
  pub program_start : PlaceRef
  pub program_end : PlaceRef
  pub program_panic : PlaceRef
  pub call_stack : Stack MirFunction
  pub function_counter : HashMapCounter
  pub threads : List ThreadRef
  pub postprocessing : List PostprocessingTask
  -- what stands behind the `Rc` pointers
  pub objects : Objects

module _ {Net : Type 0} ⦃api : PetriNet Net⦄ where
  unfoldable pub with_net : TyCtxt → PlaceRef × PlaceRef × PlaceRef → Net → Translator Net
  with_net tcx (start, end, panicked) net = record {
    tcx = tcx;
    net = net;
    program_start = start;
    program_end = end;
    program_panic = panicked;
    call_stack = Stack.new;
    function_counter = HashMapCounter.new;
    threads = [];
    postprocessing = [];
    objects = no_objects;
  }

  unfoldable pub initial_places : Run Net (PlaceRef × PlaceRef × PlaceRef)
  initial_places = do
    panicked ← add_place program_panic
    end ← add_place program_end
    start ← add_place program_start
    add_token start 1
    pure (start, end, panicked)

  -- Translator::new
  unfoldable pub new : TyCtxt → Outcome (Translator Net)
  unfolding with_net initial_places
  new tcx = and_then (initial_places api.new) λ (places, net). ok (with_net tcx places net)

  -- `std::mem::take` leaves an empty net behind
  unfoldable pub get_result : Translator Net → Net × Translator Net
  get_result s = (s.net, record s { net = api.new })

unfoldable pub context_of : {Net : Type 0} → Translator Net → MirFunction → Context Net
context_of s function = record {
  net = s.net;
  store = record { objects = s.objects; memory = function.memory };
}

module _ {Net A : Type 0} where
  unfoldable pub on_translator_net : Run Net A → Run (Translator Net) A
  on_translator_net m s = and_then (m s.net) λ (a, net'). ok (a, record s { net = net' })

  -- `call_stack.peek()`
  unfoldable pub read_top : (MirFunction → Outcome A) → Run (Translator Net) A
  read_top f s = and_then (Stack.peek s.call_stack) λ function. and_then (f function) λ a. ok (a, s)

  -- what is done through `call_stack.peek_mut()` and the net
  unfoldable pub frame_result : Translator Net → A × Frame Net → Outcome (A × Translator Net)
  frame_result s (a, c) =
      and_then (Stack.peek_mut (λ f. ok (tt, c.function)) s.call_stack)
        λ (_, stack). ok (a, record s { net = c.net; call_stack = stack })

  unfoldable pub with_frame : Run (Frame Net) A → Run (Translator Net) A
  unfolding frame_result
  with_frame m s =
      and_then (Stack.peek s.call_stack)
        λ function. and_then (m (record { function = function; net = s.net })) (frame_result s)

  -- what is done with the memory of the function on the top, and the net
  unfoldable pub context_result : Translator Net → A × Context Net → Outcome (A × Translator Net)
  context_result s (a, c) =
      and_then (Stack.peek_mut (λ f. ok (tt, record f { memory = c.store.memory })) s.call_stack)
        λ (_, stack).
          ok (a, record s { net = c.net; call_stack = stack; objects = c.store.objects })

  unfoldable pub with_context : Run (Context Net) A → Run (Translator Net) A
  unfolding context_of context_result
  with_context m s =
      and_then (Stack.peek s.call_stack)
        λ function. and_then (m (context_of s function)) (context_result s)

module _ {Net : Type 0} where
  unfoldable pub get_count : String → Run (Translator Net) ℕ
  get_count function_name s =
      let (n, counter) = HashMapCounter.get_count function_name s.function_counter in
      ok (n, record s { function_counter = counter })

  unfoldable pub increment : String → Run (Translator Net) (Unit {0})
  increment function_name s = ok (
    tt,
    record s { function_counter = HashMapCounter.increment function_name s.function_counter },
  )

  unfoldable pub push_function : MirFunction → Run (Translator Net) (Unit {0})
  push_function function s = ok (tt, record s { call_stack = Stack.push function s.call_stack })

  unfoldable pub push_function_to_call_stack :
      DefId → (start_place end_place : PlaceRef) → Run (Translator Net) (Unit {0})
  unfolding push_function
  push_function_to_call_stack function_def_id start_place end_place s =
      push_function
        (MirFunction.new function_def_id (s.tcx.def_path_str function_def_id) start_place end_place)
        s

  unfoldable pub pop_function : Run (Translator Net) (Unit {0})
  pop_function s = ok (tt, record s { call_stack = (Stack.pop s.call_stack).1 })
