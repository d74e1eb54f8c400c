-- ===== src/Safety/Step.antt =====
-- What a handler keeps: a well-formed context, the net and the objects.
use granite.Common.{Option, none, some}
use granite.Safety.Listed.{Keeps, Keeps-refl, Keeps-trans, Lists}
use granite.PetriNet.{PetriNet}
use granite.PetriNet.View.{View, Laws}
use granite.PetriNet.Grows.{Grows, Grows-refl, Grows-trans, TransitionIn}
use granite.Function.{PostprocessingTask, Places, ignore_cleanup_place, Transitions, get_default}
use granite.Memory.{Memory}
use granite.Objects.{Objects}
use granite.Context.{Context}
use granite.Common.Outcome.{Outcome, ok, and_then}
use granite.Common.Outcome.Returns.{Returns}
use granite.Common.Outcome.Safe.{Safe, last, of_Returns}
use granite.Safety.Net.{GrowsTo}
use granite.Safety.Memory.{MemoryIn}
use granite.Safety.World.{
  TaskIn, PlacesIn, TransitionsIn, ObjectsIn, ObjectsIn-Grows, MapIn, Spans, Spans-refl,
  Spans-trans,
}

-- a call without its cleanup place
pub ignore_cleanup_place-PlacesIn :
    (v : View) (places : Places) → PlacesIn v places → PlacesIn v (ignore_cleanup_place places)
unfolding ignore_cleanup_place
ignore_cleanup_place-PlacesIn v (Places.basic s e) h = h
ignore_cleanup_place-PlacesIn v (Places.with_cleanup s e c) h = (h.0, h.1)

pub get_default-TransitionIn :
    (v : View) (ts : Transitions) → TransitionsIn v ts → TransitionIn v (get_default ts)
unfolding get_default
get_default-TransitionIn v (Transitions.basic t) h = h
get_default-TransitionIn v (Transitions.with_cleanup t u) h = h.0

abbrev pub OptionTaskIn : View → Objects → Option PostprocessingTask → Type 0
OptionTaskIn v o none = Unit
OptionTaskIn v o (some t) = TaskIn v o t

module _ {Net : Type 0} ⦃api : PetriNet Net⦄ (L : Laws Net) where
  open L use {view}

  pub record ContextIn (c : Context Net) : Type 0 where
    pub objects : ObjectsIn (view c.net) c.store.objects
    pub memory : MapIn c.store.objects c.store.memory.map

  pub record Step (c c' : Context Net) : Type 0 where
    pub inside : ContextIn c'
    pub grows : Grows (view c.net) (view c'.net)
    pub spans : Spans c.store.objects c'.store.objects
    pub keeps : Keeps c.store.objects c'.store.objects

  -- a step whose task accounts for the mutexes that it makes
  pub record TaskStep (c : Context Net) (t : Option PostprocessingTask) (c' : Context Net)
      : Type 0 where
    pub inside : ContextIn c'
    pub grows : Grows (view c.net) (view c'.net)
    pub spans : Spans c.store.objects c'.store.objects
    pub task : OptionTaskIn (view c'.net) c'.store.objects t
    pub lists : Lists c.store.objects c'.store.objects t

  pub TaskStep-none : {c c' : Context Net} → Step c c' → TaskStep c none c'
  TaskStep-none s = record {
    inside = s.inside;
    grows = s.grows;
    spans = s.spans;
    task = tt;
    lists = s.keeps;
  }

  -- only the net has changed
  pub Step-net :
      (c : Context Net) (n' : Net)
      → ContextIn c
      → Grows (view c.net) (view n')
      → Step c (record c { net = n' })
  Step-net c n' h g = record {
    inside = record { objects = ObjectsIn-Grows g c.store.objects h.objects; memory = h.memory };
    grows = g;
    spans = Spans-refl c.store.objects;
    keeps = Keeps-refl c.store.objects;
  }

  pub Step-trans : {c d e : Context Net} → Step c d → Step d e → Step c e
  Step-trans s t = record {
    inside = t.inside;
    grows = Grows-trans s.grows t.grows;
    spans = Spans-trans s.spans t.spans;
    keeps = Keeps-trans s.keeps t.keeps;
  }

  -- A step of the net alone, of the memory alone, or of nothing.
  pub on_net-Safe :
      {A : Type 0} (Q : A → View → Type 0) {o : Outcome (A × Net)} (c : Context Net)
      → ContextIn c
      → Returns (GrowsTo L c.net Q) o
      → Safe
          (λ (a, c'). Step c c' × Q a (view c'.net))
          (and_then o λ (a, n). ok (a, record c { net = n }))
  on_net-Safe Q c h r = last _ (of_Returns r) λ (a, n) (g, q). (Step-net c n h g, q)

  pub on_memory-Safe :
      {o : Outcome (Unit {0} × Memory)} (c : Context Net)
      → ContextIn c
      → Safe (MemoryIn c.store.objects) o
      → Safe
          (λ (a, c'). Step c c' × Unit {0})
          (and_then o λ (a, m). ok (a, record c { store = record (c.store) { memory = m } }))
  on_memory-Safe c h r = last _ r λ (a, m') k. (
    record {
      inside = record { objects = h.objects; memory = k };
      grows = Grows-refl (view c.net);
      spans = Spans-refl c.store.objects;
      keeps = Keeps-refl c.store.objects;
    },
    tt,
  )

  pub read_memory-Safe :
      {A : Type 0} (Q : A → Objects → Type 0) {o : Outcome A} (c : Context Net)
      → ContextIn c
      → Safe (λ a. Q a c.store.objects) o
      → Safe (λ (a, c'). Step c c' × Q a c'.store.objects) (and_then o λ a. ok (a, c))
  read_memory-Safe Q c h r = last _ r λ a q. (Step-net c c.net h (Grows-refl (view c.net)), q)

pub PlacesIn-Grows :
    {v w : View} (places : Places) → Grows v w → PlacesIn v places → PlacesIn w places
PlacesIn-Grows (Places.basic s e) g h = (g.places s h.0, g.places e h.1)
PlacesIn-Grows (Places.with_cleanup s e c) g h = (g.places s h.0, g.places e h.1, g.places c h.2)

pub TransitionsIn-Grows :
    {v w : View} (ts : Transitions) → Grows v w → TransitionsIn v ts → TransitionsIn w ts
TransitionsIn-Grows (Transitions.basic t) g h = g.transitions t h
TransitionsIn-Grows (Transitions.with_cleanup t u) g h = (g.transitions t h.0, g.transitions u h.1)
