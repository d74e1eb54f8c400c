-- ===== src/Safety/World.antt =====
-- What it means that each reference that the translation holds points into the net and to an object,
-- and that this stays so while the net and the objects grow.
use granite.Common.{ℕ, ◌≤◌, ◌<◌, ◌≡◌, true, Option, none, some, arith, length, All, All-map}
use granite.PetriNet.{TransitionRef}
use granite.PetriNet.View.{View}
use granite.PetriNet.Grows.{PlaceIn, TransitionIn, Grows}
use granite.Mir.{DefId, Place}
use granite.Objects.{
  Value, mutex, mutex_guard, join_handle, condvar, aggregate, ValueVec, nil, cons, Mutex, Condvar,
  Thread, Guard, Objects,
}
use granite.Memory.Map.{PlaceMap}
use granite.Function.{Places, Transitions, PostprocessingTask, link_mutex_to_condvar, new_mutex}
use granite.MirFunction.{MirFunction}
use granite.MirFunction.BasicBlock.{BasicBlock}
use granite.MirFunction.Blocks.{BlockMap, contains_key}
use granite.Safety.ThreadDefs.{KeepsDefs}

-- a value points to objects that are there
mutual
  pub data ValueIn (o : Objects) : Value → Type 0 where
    mutex_in : {r : ℕ} → r < length o.mutexes → ValueIn o (mutex r)
    guard_in : {g : Guard} → g.mutex < length o.mutexes → ValueIn o (mutex_guard g)
    handle_in : {r : ℕ} → r < length o.threads → ValueIn o (join_handle r)
    condvar_in : {r : ℕ} → r < length o.condvars → ValueIn o (condvar r)
    aggregate_in : {vs : ValueVec} → ValuesIn o vs → ValueIn o (aggregate vs)

  pub data ValuesIn (o : Objects) : ValueVec → Type 0 where
    nil_in : ValuesIn o nil
    cons_in : {v : Value} {vs : ValueVec} → ValueIn o v → ValuesIn o vs → ValuesIn o (cons v vs)

-- no object goes away, and a thread keeps its function
pub record Spans (o o' : Objects) : Type 0 where
  pub mutexes : length o.mutexes ≤ length o'.mutexes
  pub condvars : length o.condvars ≤ length o'.condvars
  pub threads : length o.threads ≤ length o'.threads
  pub defs : KeepsDefs o.threads o'.threads

pub Spans-refl : (o : Objects) → Spans o o
Spans-refl o = record {
  mutexes = omega arith;
  condvars = omega arith;
  threads = omega arith;
  defs = λ r d e. e;
}

pub Spans-trans : {o p q : Objects} → Spans o p → Spans p q → Spans o q
Spans-trans s t = record {
  mutexes = omega arith;
  condvars = omega arith;
  threads = omega arith;
  defs = λ r d e. t.defs r d (s.defs r d e);
}

mutual
  ValueIn-mono : {o o' : Objects} → Spans o o' → {v : Value} → ValueIn o v → ValueIn o' v
  ValueIn-mono s (mutex_in h) = mutex_in (omega arith)
  ValueIn-mono s (guard_in h) = guard_in (omega arith)
  ValueIn-mono s (handle_in h) = handle_in (omega arith)
  ValueIn-mono s (condvar_in h) = condvar_in (omega arith)
  ValueIn-mono s (aggregate_in h) = aggregate_in (ValuesIn-mono s h)

  ValuesIn-mono : {o o' : Objects} → Spans o o' → {vs : ValueVec} → ValuesIn o vs → ValuesIn o' vs
  ValuesIn-mono s nil_in = nil_in
  ValuesIn-mono s (cons_in h k) = cons_in (ValueIn-mono s h) (ValuesIn-mono s k)

pub ValueIn-Spans : {o o' : Objects} {v : Value} → Spans o o' → ValueIn o v → ValueIn o' v
ValueIn-Spans s h = ValueIn-mono s h

pub ValuesIn-Spans : {o o' : Objects} {vs : ValueVec} → Spans o o' → ValuesIn o vs → ValuesIn o' vs
ValuesIn-Spans s h = ValuesIn-mono s h

abbrev pub EntryIn : Objects → Place × Value → Type 0
EntryIn o (p, v) = ValueIn o v

abbrev pub MapIn : Objects → PlaceMap → Type 0
MapIn o m = All (EntryIn o) m

pub MapIn-Spans : {o o' : Objects} (m : PlaceMap) → Spans o o' → MapIn o m → MapIn o' m
MapIn-Spans {o} m s h = All-map (EntryIn o) m (λ x k. ValueIn-Spans s k) h

abbrev pub OptionIn : View → Option TransitionRef → Type 0
OptionIn v none = Unit
OptionIn v (some t) = TransitionIn v t

-- the objects point into the net, and the threads to objects
pub record MutexIn (v : View) (m : Mutex) : Type 0 where
  pub place : PlaceIn v m.mutex
  pub deref_mut : All (TransitionIn v) m.deref_mut

pub record CondvarIn (v : View) (c : Condvar) : Type 0 where
  pub wait_start : TransitionIn v c.wait_start
  pub notify : PlaceIn v c.notify
  pub notify_received : TransitionIn v c.notify_received

pub record ThreadIn (v : View) (o : Objects) (t : Thread) : Type 0 where
  pub spawn : TransitionIn v t.spawn_transition
  pub join : OptionIn v t.join_transition
  pub aggregate : ValuesIn o t.aggregate

pub record ObjectsIn (v : View) (o : Objects) : Type 0 where
  pub mutexes : All (MutexIn v) o.mutexes
  pub condvars : All (CondvarIn v) o.condvars
  pub threads : All (ThreadIn v o) o.threads

module _ {v w : View} (g : Grows v w) where
  pub OptionIn-Grows : (t : Option TransitionRef) → OptionIn v t → OptionIn w t
  OptionIn-Grows none h = tt
  OptionIn-Grows (some t) h = g.transitions t h

  pub MutexIn-Grows : (m : Mutex) → MutexIn v m → MutexIn w m
  MutexIn-Grows m h = record {
    place = g.places m.mutex h.place;
    deref_mut = All-map (TransitionIn v) m.deref_mut g.transitions h.deref_mut;
  }

  pub CondvarIn-Grows : (c : Condvar) → CondvarIn v c → CondvarIn w c
  CondvarIn-Grows c h = record {
    wait_start = g.transitions c.wait_start h.wait_start;
    notify = g.places c.notify h.notify;
    notify_received = g.transitions c.notify_received h.notify_received;
  }

  pub ThreadIn-Grows :
      {o o' : Objects} → Spans o o' → (t : Thread) → ThreadIn v o t → ThreadIn w o' t
  ThreadIn-Grows s t h = record {
    spawn = g.transitions t.spawn_transition h.spawn;
    join = OptionIn-Grows t.join_transition h.join;
    aggregate = ValuesIn-Spans s h.aggregate;
  }

  pub ObjectsIn-Grows : (o : Objects) → ObjectsIn v o → ObjectsIn w o
  ObjectsIn-Grows o h = record {
    mutexes = All-map (MutexIn v) o.mutexes MutexIn-Grows h.mutexes;
    condvars = All-map (CondvarIn v) o.condvars CondvarIn-Grows h.condvars;
    threads = All-map (ThreadIn v o) o.threads (ThreadIn-Grows (Spans-refl o)) h.threads;
  }

-- the places of the blocks of a function
abbrev pub BlockIn : View → ℕ × BasicBlock → Type 0
BlockIn v (n, b) = PlaceIn v b.place

abbrev pub BlocksIn : View → BlockMap → Type 0
BlocksIn v m = All (BlockIn v) m

abbrev pub ActiveIn : Option ℕ → BlockMap → Type 0
ActiveIn none m = Unit
ActiveIn (some i) m = contains_key i m ≡ true

-- The function `d` on the call stack: its places are in the net, and its active block is one of its
-- blocks.
pub record FunctionIn (v : View) (o : Objects) (d : DefId) (f : MirFunction) : Type 0 where
  pub def_id : f.def_id ≡ d
  pub start_place : PlaceIn v f.start_place
  pub end_place : PlaceIn v f.end_place
  pub blocks : BlocksIn v f.basic_blocks
  pub active : ActiveIn f.active_block f.basic_blocks
  pub memory : MapIn o f.memory.map

abbrev pub TaskIn : View → Objects → PostprocessingTask → Type 0
TaskIn v o (link_mutex_to_condvar priority index start_place end_place wait_start) =
    PlaceIn v start_place × PlaceIn v end_place × TransitionIn v wait_start
TaskIn v o (new_mutex priority mutex_ref) = mutex_ref < length o.mutexes

abbrev pub PlacesIn : View → Places → Type 0
PlacesIn v (Places.basic s e) = PlaceIn v s × PlaceIn v e
PlacesIn v (Places.with_cleanup s e c) = PlaceIn v s × PlaceIn v e × PlaceIn v c

abbrev pub TransitionsIn : View → Transitions → Type 0
TransitionsIn v (Transitions.basic t) = TransitionIn v t
TransitionsIn v (Transitions.with_cleanup t c) = TransitionIn v t × TransitionIn v c

module _ {v w : View} {o o' : Objects} (g : Grows v w) (s : Spans o o') where
  pub FunctionIn-Grows : {d : DefId} (f : MirFunction) → FunctionIn v o d f → FunctionIn w o' d f
  FunctionIn-Grows f h = record {
    def_id = h.def_id;
    start_place = g.places f.start_place h.start_place;
    end_place = g.places f.end_place h.end_place;
    blocks = All-map (BlockIn v) f.basic_blocks (λ (n, b) k. g.places b.place k) h.blocks;
    active = h.active;
    memory = MapIn-Spans f.memory.map s h.memory;
  }

  pub TaskIn-Grows : (t : PostprocessingTask) → TaskIn v o t → TaskIn w o' t
  TaskIn-Grows (link_mutex_to_condvar priority index start_place end_place wait_start) h =
      (g.places start_place h.0, g.places end_place h.1, g.transitions wait_start h.2)
  TaskIn-Grows (new_mutex priority mutex_ref) h = omega arith
