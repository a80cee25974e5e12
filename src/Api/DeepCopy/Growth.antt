-- ===== src/Api/DeepCopy/Growth.antt =====
-- What an allocation keeps of the memory, and the copy of a map.
use serenedb_operator.Api.DeepCopy.Reads.{Grows, Keeps}
use serenedb_operator.Prelude.Dict.{lookup, insert, copy, Dict}
use Prim.Native.String.{String}
use mathlib.Core.List.{[], ◌∷◌, ◌++◌}
use serenedb_operator.Prelude.{
  ◌∙◌, ◌==◌, ap, zero, is_some, eq_iff, append_assoc, append-nil, sym, some, ◌≤◌, true, suc, length,
  false, ◌≡◌, ℕ, arith, refl,
}
use serenedb_operator.Api.DeepCopy.Memory.{Cell, distinct, cell_from, cell_at, Heap}

-- Every cell of the first heap is in the second.
abbrev pub Extends : Heap → Heap → Type 0
Extends h k = (a : ℕ) → Keeps (cell_at a h) (cell_at a k)

pub Extends-trans : (h k l : Heap) → Extends h k → Extends k l → Extends h l
Extends-trans h k l hk kl a c e = kl a c (hk a c e)

pub Extends-append : (h e : Heap) → Extends h (h ++ e)
unfolding cell_at
Extends-append [] e a c q = absurd (ground arith)
Extends-append (b ∷ h) e zero c q = q
Extends-append (b ∷ h) e (suc a) c q = Extends-append h e a c q

pub cell_at-append : (h : Heap) (c : Cell) → cell_at (length h) (h ++ c ∷ []) ≡ some c
unfolding cell_at
cell_at-append [] c = refl
cell_at-append (b ∷ h) c = cell_at-append h c

-- A lower bound allows more cells.
pub Extends-Grows : (n m : ℕ) (h k : Heap) → m ≤ n → Extends h k → Grows n h m k
unfolding cell_from
Extends-Grows n m h k le ext a c e = ground (arith, ext a c)

-- The cell that was allocated last is not below a bound that the heap had reached before.
pub cell_from-append :
    (n : ℕ) (h : Heap) (c : Cell) → n ≤ length h → cell_from n (length h) (h ++ c ∷ []) ≡ some c
unfolding cell_from
cell_from-append n h c le = ground (arith, cell_at-append h c)

pub cell_from_all : (a : ℕ) (h : Heap) → cell_from 0 a h ≡ cell_at a h
unfolding cell_from
cell_from_all a h = ground arith

distinct_tail : (k v : String) (d : Dict String) → distinct ((k, v) ∷ d) ≡ true → distinct d ≡ true
unfolding distinct
distinct_tail k v d p = ground arith

lookup_later : (k v : String) (d e : Dict String) → is_some (lookup k (d ++ (k, v) ∷ e)) ≡ true
unfolding lookup
lookup_later k v [] e = ground (arith, eq_iff k k)
lookup_later k v ((j, w) ∷ d) e = ground (arith, lookup_later k v d e)

distinct_apart :
    (j w : String) (d : Dict String) (k v : String) (e : Dict String)
    → distinct ((j, w) ∷ (d ++ (k, v) ∷ e)) ≡ true
    → (j == k) ≡ false
unfolding distinct
distinct_apart j w d k v e p = ground (arith, eq_iff j k, lookup_later k v d e)

insert_fresh :
    (k v : String) (d e : Dict String)
    → distinct (d ++ (k, v) ∷ e) ≡ true
    → insert k v d ≡ d ++ (k, v) ∷ []
unfolding distinct insert lookup
insert_fresh k v [] e p = refl
insert_fresh k v ((j, w) ∷ d) e p = ground (
  arith,
  distinct_apart j w d k v e p,
  insert_fresh k v d e (distinct_tail j w (d ++ (k, v) ∷ e) p),
)

copy_append : (d e : Dict String) → distinct (d ++ e) ≡ true → copy d e ≡ d ++ e
unfolding copy
copy_append d [] p = sym (append-nil d)
copy_append d ((k, v) ∷ e) p =
    let fresh = insert_fresh k v d e p in
    let whole = append_assoc d ((k, v) ∷ []) e in
    ap (λ x. copy x e) fresh ∙ copy_append (d ++ (k, v) ∷ []) e (ap distinct whole ∙ p) ∙ whole

-- Where no key is repeated, the copy into an empty map is the map.
pub copy_all : (d : Dict String) → distinct d ≡ true → copy [] d ≡ d
copy_all d p = copy_append [] d p
