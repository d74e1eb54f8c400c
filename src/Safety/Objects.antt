-- ===== src/Safety/Objects.antt =====
-- Creating an object, and changing what stands behind a reference.
use granite.Common.{
  ℕ, suc, ◌<◌, ◌≡◌, refl, true, false, get_elem?_total, All-get_elem?, Option, none, some, List, [],
  ◌∷◌, arith, length, length-append, length-set, All, All-append, All-set, All-map,
}
use granite.Common.Outcome.Safe
use granite.Common.Outcome.Safe.{Safe, panics}
use granite.PetriNet.{TransitionRef}
use granite.PetriNet.View.{View}
use granite.PetriNet.Grows.{Grows-refl, TransitionIn}
use granite.Objects.{
  Mutex, Condvar, Thread, Objects, new_mutex_ref, new_condvar_ref, new_thread_ref, set_mutex,
  set_condvar, set_thread, mutex_at, condvar_at, thread_at,
}
use granite.Sync.Mutex.{add_deref_mut_transition}
use granite.Sync.Thread.{set_once, set_join_transition}
use granite.Safety.ThreadDefs.{
  def_at, KeepsDefs-append, KeepsDefs-set, def_at-append_length, def_at-get_elem?,
}
use granite.Safety.World.{Spans, ObjectsIn, MutexIn, CondvarIn, ThreadIn, ThreadIn-Grows}
use granite.Safety.Memory.{at-Safe}
use granite.Function.{PostprocessingTask}
use granite.Safety.Listed.{has_wait, Registered, AllRegistered, Keeps}

-- objects that grew, and are well formed
pub record Kept (v : View) (o o' : Objects) : Type 0 where
  pub inside : ObjectsIn v o'
  pub spans : Spans o o'
  pub keeps : Keeps o o'

-- a mutex was added, with the next reference
pub record Added (v : View) (o : Objects) (r : ℕ) (o' : Objects) : Type 0 where
  pub inside : ObjectsIn v o'
  pub spans : Spans o o'
  pub next : r ≡ length o.mutexes
  pub mutexes : length o'.mutexes ≡ suc (length o.mutexes)
  pub waits : (ts : List PostprocessingTask) → AllRegistered o ts → AllRegistered o' ts

-- a condition variable was linked to its call of `wait`
pub record Marked (v : View) (o : Objects) (w : TransitionRef) (o' : Objects) : Type 0 where
  pub inside : ObjectsIn v o'
  pub spans : Spans o o'
  pub mutexes : length o'.mutexes ≡ length o.mutexes
  pub waits :
      (ts : List PostprocessingTask)
      → has_wait w ts ≡ true
      → AllRegistered o ts
      → AllRegistered o' ts

module _ (v : View) {o o' : Objects} (s : Spans o o') where
  threads-Spans : (ts : List Thread) → All (ThreadIn v o) ts → All (ThreadIn v o') ts
  threads-Spans ts h = All-map (ThreadIn v o) ts (ThreadIn-Grows (Grows-refl v) s) h

module _ {v : View} (o : Objects) (h : ObjectsIn v o) where
  pub new_mutex_ref-Added :
      (m : Mutex)
      → MutexIn v m
      → Added v o (new_mutex_ref m o).0 (new_mutex_ref m o).1
        × ((new_mutex_ref m o).0 < length (new_mutex_ref m o).1.mutexes)
  unfolding new_mutex_ref
  new_mutex_ref-Added m k =
      let s : Spans o (new_mutex_ref m o).1 = record {
        mutexes = omega (arith, length-append o.mutexes (m ∷ []));
        condvars = omega arith;
        threads = omega arith;
        defs = λ r d e. e;
      } in
      (
        record {
          inside = record {
            mutexes = All-append (MutexIn v) o.mutexes (m ∷ []) h.mutexes (k, tt);
            condvars = h.condvars;
            threads = threads-Spans v s o.threads h.threads;
          };
          spans = s;
          next = refl;
          mutexes = omega (arith, length-append o.mutexes (m ∷ []));
          waits = λ ts k. k;
        },
        omega (arith, length-append o.mutexes (m ∷ [])),
      )

  pub new_condvar_ref-Kept :
      (c : Condvar)
      → CondvarIn v c
      → c.already_linked_to_call ≡ false
      → Kept v o (new_condvar_ref c o).1
        × ((new_condvar_ref c o).0 < length (new_condvar_ref c o).1.condvars)
  unfolding new_condvar_ref
  new_condvar_ref-Kept c k fresh =
      let s : Spans o (new_condvar_ref c o).1 = record {
        mutexes = omega arith;
        condvars = omega (arith, length-append o.condvars (c ∷ []));
        threads = omega arith;
        defs = λ r d e. e;
      } in
      (
        record {
          inside = record {
            mutexes = h.mutexes;
            condvars = All-append (CondvarIn v) o.condvars (c ∷ []) h.condvars (k, tt);
            threads = threads-Spans v s o.threads h.threads;
          };
          spans = s;
          keeps = record {
            mutexes = refl;
            waits = λ ts r.
                All-append (Registered ts) o.condvars (c ∷ []) r
                  ((λ linked. ground (arith, fresh)), tt);
          };
        },
        omega (arith, length-append o.condvars (c ∷ [])),
      )

  pub new_thread_ref-Kept :
      (t : Thread)
      → ThreadIn v o t
      → Kept v o (new_thread_ref t o).1
        × ((new_thread_ref t o).0 < length (new_thread_ref t o).1.threads)
        × (def_at (new_thread_ref t o).1.threads (new_thread_ref t o).0 ≡ some t.def_id)
  unfolding new_thread_ref
  new_thread_ref-Kept t k =
      let s : Spans o (new_thread_ref t o).1 = record {
        mutexes = omega arith;
        condvars = omega arith;
        threads = omega (arith, length-append o.threads (t ∷ []));
        defs = KeepsDefs-append o.threads (t ∷ []);
      } in
      (
        record {
          inside = record {
            mutexes = h.mutexes;
            condvars = h.condvars;
            threads =
                threads-Spans v s _
                  (All-append (ThreadIn v o) o.threads (t ∷ []) h.threads (k, tt));
          };
          spans = s;
          keeps = record { mutexes = refl; waits = λ ts r. r };
        },
        omega (arith, length-append o.threads (t ∷ [])),
        def_at-append_length o.threads t,
      )

  set_mutex-Kept : (r : ℕ) (m : Mutex) → MutexIn v m → Kept v o (set_mutex r m o)
  unfolding set_mutex
  set_mutex-Kept r m k =
      let s : Spans o (set_mutex r m o) = record {
        mutexes = omega (arith, length-set o.mutexes r m);
        condvars = omega arith;
        threads = omega arith;
        defs = λ i d e. e;
      } in
      record {
        inside = record {
          mutexes = All-set (MutexIn v) o.mutexes r m h.mutexes k;
          condvars = h.condvars;
          threads = threads-Spans v s o.threads h.threads;
        };
        spans = s;
        keeps = record { mutexes = length-set o.mutexes r m; waits = λ ts r. r };
      }

  pub set_condvar-Marked :
      (r : ℕ) (c : Condvar) → CondvarIn v c → Marked v o c.wait_start (set_condvar r c o)
  unfolding set_condvar
  set_condvar-Marked r c k =
      let s : Spans o (set_condvar r c o) = record {
        mutexes = omega arith;
        condvars = omega (arith, length-set o.condvars r c);
        threads = omega arith;
        defs = λ i d e. e;
      } in
      record {
        inside = record {
          mutexes = h.mutexes;
          condvars = All-set (CondvarIn v) o.condvars r c h.condvars k;
          threads = threads-Spans v s o.threads h.threads;
        };
        spans = s;
        mutexes = refl;
        waits = λ ts there_ q. All-set (Registered ts) o.condvars r c q λ linked. there_;
      }

  set_thread-Kept :
      (r : ℕ) (t : Thread)
      → def_at o.threads r ≡ some t.def_id
      → ThreadIn v o t
      → Kept v o (set_thread r t o)
  unfolding set_thread
  set_thread-Kept r t same k =
      let s : Spans o (set_thread r t o) = record {
        mutexes = omega arith;
        condvars = omega arith;
        threads = omega (arith, length-set o.threads r t);
        defs = KeepsDefs-set o.threads r t same;
      } in
      record {
        inside = record {
          mutexes = h.mutexes;
          condvars = h.condvars;
          threads = threads-Spans v s _ (All-set (ThreadIn v o) o.threads r t h.threads k);
        };
        spans = s;
        keeps = record { mutexes = refl; waits = λ ts r. r };
      }

  pub mutex_at-Safe : (r : ℕ) → r < length o.mutexes → Safe (MutexIn v) (mutex_at r o)
  unfolding mutex_at
  mutex_at-Safe r lt = at-Safe (MutexIn v) o.mutexes r lt h.mutexes

  pub condvar_at-Safe : (r : ℕ) → r < length o.condvars → Safe (CondvarIn v) (condvar_at r o)
  unfolding condvar_at
  condvar_at-Safe r lt = at-Safe (CondvarIn v) o.condvars r lt h.condvars

  pub thread_at-Safe :
      (r : ℕ)
      → r < length o.threads
      → Safe (λ t. ThreadIn v o t × (def_at o.threads r ≡ some t.def_id)) (thread_at r o)
  unfolding thread_at
  thread_at-Safe r lt =
      let (t, e) = get_elem?_total o.threads r lt in
      rw e (
        Safe.returns
          (All-get_elem? (ThreadIn v o) o.threads r h.threads e, def_at-get_elem? o.threads r t e))

  pub add_deref_mut_transition-Safe :
      (r : ℕ) (t : TransitionRef)
      → r < length o.mutexes
      → TransitionIn v t
      → Safe (λ (_, o'). Kept v o o') (add_deref_mut_transition r t o)
  unfolding add_deref_mut_transition
  add_deref_mut_transition-Safe r t lt k = Safe.bind (mutex_at-Safe r lt) λ m hm. Safe.returns (
      set_mutex-Kept r _ (record {
        place = hm.place;
        deref_mut = All-append (TransitionIn v) m.deref_mut (t ∷ []) hm.deref_mut (k, tt);
      }))

  set_once-Safe :
      (before : Option TransitionRef) (r : ℕ) (th : Thread) (t : TransitionRef)
      → def_at o.threads r ≡ some th.def_id
      → ThreadIn v o th
      → TransitionIn v t
      → Safe (λ (_, o'). Kept v o o') (set_once before r th t o)
  unfolding set_once
  set_once-Safe (some u) r th t same k kt = panics refl
  set_once-Safe none r th t same k kt =
      Safe.returns
        (set_thread-Kept r _ same (record { spawn = k.spawn; join = kt; aggregate = k.aggregate }))

  pub set_join_transition-Safe :
      (r : ℕ) (t : TransitionRef)
      → r < length o.threads
      → TransitionIn v t
      → Safe (λ (_, o'). Kept v o o') (set_join_transition r t o)
  unfolding set_join_transition
  set_join_transition-Safe r t lt k =
      Safe.bind (thread_at-Safe r lt)
        λ th (hth, same). set_once-Safe th.join_transition r th t same hth k
