-- ===== src/Api/DeepCopy/Registry/Writes.antt =====
-- Writes to memory, and what a value holds behind writes that miss its cells.
use serenedb_operator.Api.DeepCopy.Growth.{Extends, Extends-append}
use serenedb_operator.Api.DeepCopy.Reads.{view-Keeps, Grows, Keeps}
use serenedb_operator.Api.DeepCopy.Memory.{
  view, Content, Val, Cell, cell_from, cell_at, Shape, Heap,
}
use mathlib.Core.List.{List, [], ◌∷◌, ◌++◌}
use serenedb_operator.Prelude.{
  ◌∙◌, some, ap, ◌⊎◌, ◌≢◌, ◌≡◌, suc, length, arith, ◌≤◌, ◌<◌, inr, inl, All, ℕ, zero, refl,
}

-- An assignment through a reference, or an allocation.
pub data Write : Type 0 where
  store : ℕ → Cell → Write
  grow : Cell → Write

unfoldable pub store_at : ℕ → Cell → Heap → Heap
store_at a c [] = []
store_at zero c (b ∷ h) = c ∷ h
store_at (suc a) c (b ∷ h) = b ∷ store_at a c h

unfoldable pub write : Write → Heap → Heap
write (store a c) h = store_at a c h
write (grow c) h = h ++ c ∷ []

unfoldable pub write_all : List Write → Heap → Heap
write_all [] h = h
write_all (w ∷ ws) h = write_all ws (write w h)

-- The write leaves the cells from the first bound up to the second alone.
abbrev pub Misses : ℕ → ℕ → Write → Type 0
Misses lo hi (store a c) = (a < lo) ⊎ (hi ≤ a)
Misses lo hi (grow c) = Unit

store_at_other : (a b : ℕ) (c : Cell) (h : Heap) → a ≢ b → cell_at b (store_at a c h) ≡ cell_at b h
unfolding store_at cell_at
store_at_other a b c [] n = refl
store_at_other zero zero c (x ∷ h) n = absurd (n refl)
store_at_other zero (suc b) c (x ∷ h) n = refl
store_at_other (suc a) zero c (x ∷ h) n = refl
store_at_other (suc a) (suc b) c (x ∷ h) n = store_at_other a b c h λ e. n (ap suc e)

-- The cells between the bounds are the same ones.
abbrev pub Same : ℕ → ℕ → Heap → Heap → Type 0
Same lo hi h k = (b : ℕ) → lo ≤ b → b < hi → Keeps (cell_at b h) (cell_at b k)

write-Same : (lo hi : ℕ) (w : Write) (h : Heap) → Misses lo hi w → Same lo hi h (write w h)
unfolding write
write-Same lo hi (store a c) h (inl l) b p q x e =
    store_at_other a b c h (λ r. absurd (omega (arith, r, l, p))) ∙ e
write-Same lo hi (store a c) h (inr l) b p q x e =
    store_at_other a b c h (λ r. absurd (omega (arith, r, l, q))) ∙ e
write-Same lo hi (grow c) h m b p q x e = Extends-append h (c ∷ []) b x e

pub write_all-Same :
    (lo hi : ℕ) (ws : List Write) (h : Heap) → All (Misses lo hi) ws → Same lo hi h (write_all ws h)
unfolding write_all
write_all-Same lo hi [] h m b p q x e = e
write_all-Same lo hi (w ∷ ws) h (m, ms) b p q x e =
    write_all-Same lo hi ws (write w h) ms b p q x (write-Same lo hi w h m b p q x e)

cell_at_below : (a : ℕ) (h : Heap) (c : Cell) → cell_at a h ≡ some c → a < length h
unfolding cell_at
cell_at_below a [] c e = absurd (ground arith)
cell_at_below zero (x ∷ h) c e = omega arith
cell_at_below (suc a) (x ∷ h) c e = omega (arith, cell_at_below a h c e)

cell_from_holds :
    (n a : ℕ) (h : Heap) (c : Cell) → cell_from n a h ≡ some c → (n ≤ a) × (cell_at a h ≡ some c)
unfolding cell_from
cell_from_holds n a h c e = (ground arith, ground arith)

cell_from_is :
    (n a : ℕ) (h : Heap) (c : Cell) → n ≤ a → cell_at a h ≡ some c → cell_from n a h ≡ some c
unfolding cell_from
cell_from_is n a h c l e = ground arith

kept :
    (n : ℕ) (h k : Heap) (ws : List Write)
    → Extends h k
    → All (Misses n (length h)) ws
    → Grows n h n (write_all ws k)
kept n h k ws ext ms a c e =
    let held = cell_from_holds n a h c e in
    cell_from_is n a (write_all ws k) c held.0
      (write_all-Same n (length h) ws k ms a held.0 (cell_at_below a h c held.1) c (ext a c held.1))

-- A value holds what it held where the memory grows and its cells are not written.
pub view-write_all :
    (s : Shape) (n : ℕ) (h k : Heap) (v : Val) (t : Content) (ws : List Write)
    → Extends h k
    → view s n h v ≡ some t
    → All (Misses n (length h)) ws
    → view s n (write_all ws k) v ≡ some t
view-write_all s n h k v t ws ext e ms =
    view-Keeps n n h (write_all ws k) (kept n h k ws ext ms) s v t e
