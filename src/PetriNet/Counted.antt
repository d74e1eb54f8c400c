-- ===== src/PetriNet/Counted.antt =====
-- A net that meets the laws: a view, with the number of references given out so far. The examples
-- run on it.
use granite.Common.{
  ℕ, ◌+◌, ◌≤◌, ◌<◌, ◌≡◌, refl, Bool, true, false, ◌&&◌, none, some, arith, ltb, if◌then◌else◌,
}
use granite.PetriNet.{PetriNet}
use granite.PetriNet.View.{
  View, Laws, empty, with_place, with_transition, with_tokens, with_input, with_output, usize_mod,
}

-- every reference of the view is below `next`
pub record IsCounted (seen : View) (next : ℕ) : Type 0 where
  pub places : (p : ℕ) → next ≤ p → seen.is_place p ≡ false
  pub transitions : (t : ℕ) → next ≤ t → seen.is_transition t ≡ false

pub record Counted : Type 0 where
  pub seen : View
  pub next : ℕ
  pub counted : IsCounted seen next

pub empty-IsCounted : IsCounted empty 0
empty-IsCounted = record { places = λ p h. refl; transitions = λ t h. refl }

module _ {v : View} {n : ℕ} (c : IsCounted v n) where
  pub with_place-IsCounted : IsCounted (with_place n v) (n + 1)
  with_place-IsCounted = record {
    places = λ p h. ground (arith, c.places p);
    transitions = λ t h. ground (arith, c.transitions t);
  }

  pub with_transition-IsCounted : IsCounted (with_transition n v) (n + 1)
  with_transition-IsCounted = record {
    places = λ p h. ground (arith, c.places p);
    transitions = λ t h. ground (arith, c.transitions t);
  }

-- the same places and transitions, with other tokens or arcs
pub keep-IsCounted :
    {v : View} {n : ℕ} (tokens : ℕ → ℕ) (input output : ℕ → ℕ → Bool)
    → IsCounted v n
    → IsCounted (record v { tokens = tokens; input = input; output = output }) n
keep-IsCounted tokens input output c = record { places = c.places; transitions = c.transitions }

pub lt_ltb : {a b : ℕ} → a < b → ltb a b ≡ true
lt_ltb h = ground arith

instance abbrev pub counted_net : PetriNet Counted
counted_net = record {
  new = record { seen = empty; next = 0; counted = empty-IsCounted };
  add_place = λ label c. (
    c.next,
    record {
      seen = with_place c.next c.seen;
      next = c.next + 1;
      counted = with_place-IsCounted c.counted;
    },
  );
  add_transition = λ label c. (
    c.next,
    record {
      seen = with_transition c.next c.seen;
      next = c.next + 1;
      counted = with_transition-IsCounted c.counted;
    },
  );
  add_token = λ p n c.
      if c.seen.is_place p && ltb (c.seen.tokens p + n) usize_mod
      then some (record {
        seen = with_tokens p n c.seen;
        next = c.next;
        counted = keep-IsCounted _ _ _ c.counted;
      })
      else none;
  add_arc_place_transition = λ p t c.
      if c.seen.is_place p && c.seen.is_transition t
      then some (record {
        seen = with_input t p c.seen;
        next = c.next;
        counted = keep-IsCounted _ _ _ c.counted;
      })
      else none;
  add_arc_transition_place = λ t p c.
      if c.seen.is_transition t && c.seen.is_place p
      then some (record {
        seen = with_output t p c.seen;
        next = c.next;
        counted = keep-IsCounted _ _ _ c.counted;
      })
      else none;
}

abbrev pub counted_laws : Laws Counted
counted_laws = record {
  view = λ c. c.seen;
  new_lem = refl;
  place_fresh = λ label c. c.counted.places c.next (omega arith);
  add_place_lem = λ label c. refl;
  transition_fresh = λ label c. c.counted.transitions c.next (omega arith);
  add_transition_lem = λ label c. refl;
  add_token_lem = λ p k c h room. (
    record {
      seen = with_tokens p k c.seen;
      next = c.next;
      counted = keep-IsCounted _ _ _ c.counted;
    },
    rw h (rw (lt_ltb room) refl),
    refl,
  );
  add_input_lem = λ p t c h k. (
    record {
      seen = with_input t p c.seen;
      next = c.next;
      counted = keep-IsCounted _ _ _ c.counted;
    },
    rw (h, k) refl,
    refl,
  );
  add_output_lem = λ t p c h k. (
    record {
      seen = with_output t p c.seen;
      next = c.next;
      counted = keep-IsCounted _ _ _ c.counted;
    },
    rw (h, k) refl,
    refl,
  );
}
