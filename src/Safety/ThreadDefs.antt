-- ===== src/Safety/ThreadDefs.antt =====
-- Which function each thread object runs: it is fixed when the object is made.
use granite.Common.{
  ℕ, zero, suc, ◌≡◌, refl, Option, none, some, List, [], ◌∷◌, ◌++◌, arith, length, get_elem?, set,
}
use granite.Mir.{DefId}
use granite.Objects.{Thread}

abbrev pub def_at : List Thread → ℕ → Option DefId
def_at [] r = none
def_at (t ∷ ts) zero = some t.def_id
def_at (t ∷ ts) (suc r) = def_at ts r

abbrev pub KeepsDefs : List Thread → List Thread → Type 0
KeepsDefs ts us = (r : ℕ) (d : DefId) → def_at ts r ≡ some d → def_at us r ≡ some d

pub KeepsDefs-append : (ts us : List Thread) → KeepsDefs ts (ts ++ us)
KeepsDefs-append [] us r d e = cc
KeepsDefs-append (t ∷ ts) us zero d e = e
KeepsDefs-append (t ∷ ts) us (suc r) d e = KeepsDefs-append ts us r d e

pub KeepsDefs-set :
    (ts : List Thread) (i : ℕ) (t : Thread)
    → def_at ts i ≡ some t.def_id
    → KeepsDefs ts (set ts i t)
KeepsDefs-set [] i t h r d e = cc
KeepsDefs-set (u ∷ ts) zero t h zero d e = cc
KeepsDefs-set (u ∷ ts) zero t h (suc r) d e = e
KeepsDefs-set (u ∷ ts) (suc i) t h zero d e = e
KeepsDefs-set (u ∷ ts) (suc i) t h (suc r) d e = KeepsDefs-set ts i t h r d e

pub def_at-append_length :
    (ts : List Thread) (t : Thread) → def_at (ts ++ t ∷ []) (length ts) ≡ some t.def_id
def_at-append_length [] t = refl
def_at-append_length (u ∷ ts) t = def_at-append_length ts t

pub def_at-get_elem? :
    (ts : List Thread) (i : ℕ) (t : Thread) → get_elem? ts i ≡ some t → def_at ts i ≡ some t.def_id
def_at-get_elem? [] i t e = cc
def_at-get_elem? (u ∷ ts) zero t e = ground (arith, e)
def_at-get_elem? (u ∷ ts) (suc i) t e = def_at-get_elem? ts i t e
