-- ===== src/Mir/Places.antt =====
-- Places of the MIR, which are the keys of the memory, and the other opaque indices.
use granite.Common.{ℕ, ◌≡◌, ◌↔◌, refl, Bool, true, false, ◌&&◌, List, [], ◌∷◌, arith, ◌==◌}

-- rustc_hir::def_id::DefId and rustc_middle::mir::BasicBlock
abbrev pub DefId : Type 0
DefId = ℕ

abbrev pub BasicBlock : Type 0
BasicBlock = ℕ

-- rustc_middle::mir::ProjectionElem
pub data ProjectionElem : Type 0 where
  deref : ProjectionElem
  field : ℕ → ProjectionElem
  other_elem : ℕ → ProjectionElem

-- rustc_middle::mir::Place
pub record Place : Type 0 where
  pub local : ℕ
  pub projection : List ProjectionElem

abbrev pub elem_eq : ProjectionElem → ProjectionElem → Bool
elem_eq deref deref = true
elem_eq (field m) (field n) = m == n
elem_eq (other_elem m) (other_elem n) = m == n
elem_eq _ _ = false

unfoldable pub projection_eq : List ProjectionElem → List ProjectionElem → Bool
projection_eq [] [] = true
projection_eq (x ∷ xs) (y ∷ ys) = elem_eq x y && projection_eq xs ys
projection_eq _ _ = false

-- `==` of places
unfoldable pub place_eq : Place → Place → Bool
unfolding projection_eq
place_eq p q = p.local == q.local && projection_eq p.projection q.projection

-- Place::is_indirect: the projection has a `Deref`
unfoldable pub has_deref : List ProjectionElem → Bool
has_deref [] = false
has_deref (deref ∷ es) = true
has_deref (_ ∷ es) = has_deref es

unfoldable pub is_indirect : Place → Bool
unfolding has_deref
is_indirect p = has_deref p.projection

abbrev pub local_place : ℕ → Place
local_place n = record { local = n; projection = [] }

elem_eq_lem : (x y : ProjectionElem) → elem_eq x y ≡ true → x ≡ y
elem_eq_lem deref deref h = refl
elem_eq_lem (field m) (field n) h = ground arith
elem_eq_lem (other_elem m) (other_elem n) h = ground arith
elem_eq_lem _ _ h = cc

projection_eq_lem : (xs ys : List ProjectionElem) → projection_eq xs ys ≡ true → xs ≡ ys
unfolding projection_eq
projection_eq_lem [] [] h = refl
projection_eq_lem (x ∷ xs) (y ∷ ys) h = ground (arith, elem_eq_lem x y, projection_eq_lem xs ys)
projection_eq_lem _ _ h = cc

elem_eq_refl : (x : ProjectionElem) → elem_eq x x ≡ true
elem_eq_refl deref = refl
elem_eq_refl (field n) = ground arith
elem_eq_refl (other_elem n) = ground arith

projection_eq_refl : (xs : List ProjectionElem) → projection_eq xs xs ≡ true
unfolding projection_eq
projection_eq_refl [] = refl
projection_eq_refl (x ∷ xs) = ground (arith, elem_eq_refl x, projection_eq_refl xs)

place_eq_lem : (p q : Place) → place_eq p q ≡ true → p ≡ q
unfolding place_eq
place_eq_lem p q h = ground (arith, projection_eq_lem p.projection q.projection)

pub place_eq_refl : (p : Place) → place_eq p p ≡ true
unfolding place_eq
place_eq_refl p = ground (arith, projection_eq_refl p.projection)

pub place_eq_iff : (p q : Place) → (place_eq p q ≡ true) ↔ (p ≡ q)
place_eq_iff p q = (place_eq_lem p q, λ e. ground (arith, place_eq_refl p))
