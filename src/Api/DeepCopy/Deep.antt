-- ===== src/Api/DeepCopy/Deep.antt =====
-- What it takes for a DeepCopyInto to copy a type deeply, and that the steps which controller-gen
-- writes for the type's fields give it.
use serenedb_operator.Api.DeepCopy.Reads.{look_each-Keeps, view-Keeps}
use serenedb_operator.Api.DeepCopy.Growth.{
  cell_from_all, cell_from-append, Extends-append, Extends-trans, Extends-Grows, Extends,
}
use serenedb_operator.Api.DeepCopy.Copiers.{
  slice_into, copy_many, deep_copy, copy_each, allocate, copy_pointee, Copied, Copier,
}
use mathlib.Core.Option
use mathlib.Core.List.{[], ◌∷◌, ◌++◌}
use serenedb_operator.Prelude.{
  ◌∙◌, sym, List, get_or, length-append, ap, ◌≤◌, arith, some, length, ◌≡◌, ℕ, Option, none, refl,
}
use serenedb_operator.Api.DeepCopy.Memory.{
  many, elements, slice, many_of, also, look_each, cell_at, Contents, one_of, and_also, one, ref,
  pointer, pointee, view, look_in, Val, Content, Cell, Shape, Heap, nil,
}

-- The memory only grew, and the result holds these contents with no cell that was there before.
abbrev pub IsNew : Shape → Content → Heap → Copied Val → Type 0
IsNew s t h r =
    (length h ≤ length r.heap) × Extends h r.heap × (view s (length h) r.heap r.value ≡ some t)

-- Whatever a value of the type holds, its copy holds, in new cells alone.
abbrev pub IsDeep : Shape → Copier → Type 0
IsDeep s into = (v : Val) (h : Heap) (t : Content) → view s 0 h v ≡ some t → IsNew s t h (into v h)

pub allocate-IsNew :
    (h k : Heap) (c : Cell) (s : Shape) (t : Content)
    → length h ≤ length k
    → Extends h k
    → view s (length h) (k ++ c ∷ []) (ref (length k)) ≡ some t
    → IsNew s t h (allocate c k)
allocate-IsNew h k c s t le ext e = (
  omega (arith, le, length-append k (c ∷ [])),
  Extends-trans h k (k ++ c ∷ []) ext (Extends-append k (c ∷ [])),
  e,
)

-- What was read keeps its contents when the memory grows.
pub later :
    (s : Shape) (n m : ℕ) (h k : Heap) (v : Val) (t : Content)
    → m ≤ n
    → Extends h k
    → view s n h v ≡ some t
    → view s m k v ≡ some t
later s n m h k v t le ext e = view-Keeps n m h k (Extends-Grows n m h k le ext) s v t e

pub map_inverts :
    {A B : Type 0} (f : A → B) (o : Option A) (b : B)
    → Option.map f o ≡ some b
    → (a : A) × (o ≡ some a) × (f a ≡ b)
map_inverts f none b e = absurd (ground arith)
map_inverts f (some a) b e = (a, refl, ap (get_or (f a)) e)

pub and_also_inverts :
    (o : Option Content) (os : Option Contents) (ts : Contents)
    → and_also o os ≡ some ts
    → (c : Content) × (cs : Contents) × (o ≡ some c) × (os ≡ some cs) × (also c cs ≡ ts)
unfolding and_also
and_also_inverts (some c) (some cs) ts e = (c, cs, refl, refl, ap (get_or (also c cs)) e)
and_also_inverts none os ts e = absurd (ground arith)
and_also_inverts (some c) none ts e = absurd (ground arith)

pub also_some :
    (o : Option Content) (os : Option Contents) (c : Content) (cs ts : Contents)
    → o ≡ some c
    → os ≡ some cs
    → also c cs ≡ ts
    → and_also o os ≡ some ts
unfolding and_also
also_some o os c cs ts p q e = ap (λ x. and_also x os) p ∙ ap (and_also (some c)) q ∙ ap some e

module _ (s : Shape) (into : Copier) (d : IsDeep s into) where
  pointee-IsNew :
      (o : Option Val) (h : Heap) (t : Content)
      → look_in (λ v. Option.map pointee (view s 0 h v)) o ≡ some t
      → IsNew (pointer s) t h (copy_pointee into o h)
  unfolding copy_pointee look_in view one_of
  pointee-IsNew none h t e = absurd (ground arith)
  pointee-IsNew (some v) h t e =
      let inner = map_inverts pointee (view s 0 h v) t e in
      let r = into v h in
      let new = d v h inner.0 inner.1 in
      let n = length h in
      let k = r.heap ++ one r.value ∷ [] in
      let grown = Extends-append r.heap (one r.value ∷ []) in
      allocate-IsNew h r.heap (one r.value) (pointer s) t new.0 new.1 (
        ap (λ o. look_in (λ w. Option.map pointee (view s n k w)) (one_of o))
          (cell_from-append n r.heap (one r.value) new.0)
        ∙ ap (Option.map pointee) (later s n n r.heap k r.value inner.0 (omega arith) grown new.2)
        ∙ ap some inner.2)

  pub deep_copy-IsDeep : IsDeep (pointer s) (deep_copy into)
  unfolding deep_copy view
  deep_copy-IsDeep nil h t e = (omega arith, λ a c q. q, e)
  deep_copy-IsDeep (ref a) h t e = pointee-IsNew (one_of (cell_at a h)) h t (
      ap (λ c. look_in (λ w. Option.map pointee (view s 0 h w)) (one_of c))
        (sym (cell_from_all a h))
      ∙ e)
  deep_copy-IsDeep _ h t e = absurd (ground arith)

  each-IsNew :
      (vs : List Val) (h : Heap) (ts : Contents)
      → look_each (view s 0 h) vs ≡ some ts
      → (length h ≤ length (copy_each into vs h).heap)
        × Extends h (copy_each into vs h).heap
        × (look_each (view s (length h) (copy_each into vs h).heap) (copy_each into vs h).value
            ≡ some ts)
  unfolding copy_each look_each
  each-IsNew [] h ts e = (omega arith, λ a c q. q, e)
  each-IsNew (v ∷ vs) h ts e =
      let parts = and_also_inverts (view s 0 h v) (look_each (view s 0 h) vs) ts e in
      let r = into v h in
      let new = d v h parts.0 parts.2 in
      let tail = each-IsNew vs r.heap parts.1 (
        look_each-Keeps (view s 0 h) (view s 0 r.heap)
          (λ w c. later s 0 0 h r.heap w c (omega arith) new.1) vs parts.1 parts.3) in
      let more = copy_each into vs r.heap in
      let n = length h in
      (
        omega (arith, new.0, tail.0),
        Extends-trans h r.heap more.heap new.1 tail.1,
        also_some (view s n more.heap r.value) (look_each (view s n more.heap) more.value) parts.0
            parts.1 ts (later s n n r.heap more.heap r.value parts.0 (omega arith) tail.1 new.2)
            (look_each-Keeps (view s (length r.heap) more.heap) (view s n more.heap)
              (λ w c. later s (length r.heap) n more.heap more.heap w c new.0 (λ a b q. q))
              more.value parts.1 tail.2)
            parts.4,
      )

  many-IsNew :
      (o : Option (List Val)) (h : Heap) (t : Content)
      → look_in (λ vs. Option.map elements (look_each (view s 0 h) vs)) o ≡ some t
      → IsNew (slice s) t h (copy_many into o h)
  unfolding copy_many look_in view many_of
  many-IsNew none h t e = absurd (ground arith)
  many-IsNew (some vs) h t e =
      let inner = map_inverts elements (look_each (view s 0 h) vs) t e in
      let r = copy_each into vs h in
      let new = each-IsNew vs h inner.0 inner.1 in
      let n = length h in
      let k = r.heap ++ many r.value ∷ [] in
      let grown = Extends-append r.heap (many r.value ∷ []) in
      allocate-IsNew h r.heap (many r.value) (slice s) t new.0 new.1 (
        ap (λ o. look_in (λ ws. Option.map elements (look_each (view s n k) ws)) (many_of o))
          (cell_from-append n r.heap (many r.value) new.0)
        ∙ ap (Option.map elements) (
            look_each-Keeps (view s n r.heap) (view s n k)
              (λ w c. later s n n r.heap k w c (omega arith) grown) r.value inner.0 new.2)
        ∙ ap some inner.2)

  pub slice_into-IsDeep : IsDeep (slice s) (slice_into into)
  unfolding slice_into view
  slice_into-IsDeep nil h t e = (omega arith, λ a c q. q, e)
  slice_into-IsDeep (ref a) h t e = many-IsNew (many_of (cell_at a h)) h t (
      ap (λ c. look_in (λ ws. Option.map elements (look_each (view s 0 h) ws)) (many_of c))
        (sym (cell_from_all a h))
      ∙ e)
  slice_into-IsDeep _ h t e = absurd (ground arith)
