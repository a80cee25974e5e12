-- ===== src/Api/DeepCopy/Reads.antt =====
-- What memory must keep for a value to hold the same contents in it.
use serenedb_operator.Prelude.{
  ◌∙◌, if◌then◌else◌, ◌==◌, ap, Bool, some, none, List, ◌≡◌, arith, ℕ, Option,
}
use serenedb_operator.Api.DeepCopy.Memory.{
  field, member, view_members, Fields, Members, parts, struct, record_of, keyed, elements, slice,
  pointee, ref, pointer, atom, Shape, view, cell_from, Contents, Val, Heap, Content, Cell, one_of,
  many_of, look_in, look_each, entries_of, and_also,
}
use mathlib.Core.Option
use serenedb_operator.Prelude.{refl, true, false}
use serenedb_operator.Api.DeepCopy.Memory.{plain, mapping, no_more, end, nil}
use mathlib.Core.List.{[], ◌∷◌}

-- Whatever the first gives, the second gives too.
abbrev pub Keeps {ℓ} : {A : Type ℓ} → Option A → Option A → Type ℓ
Keeps {A = A} o p = (a : A) → o ≡ some a → p ≡ some a

-- The cells from `n` on in the first heap are the same ones from `m` on in the second.
abbrev pub Grows : ℕ → Heap → ℕ → Heap → Type 0
Grows n h m k = (a : ℕ) → Keeps (cell_from n a h) (cell_from m a k)

pub map-Keeps :
    {A B : Type 0} (f : A → B) (o p : Option A)
    → Keeps o p
    → Keeps (Option.map f o) (Option.map f p)
map-Keeps f none p k b e = absurd (ground arith)
map-Keeps f (some a) p k b e = ap (Option.map f) (k a refl) ∙ e

look_in-Keeps :
    {A : Type 0} (f g : A → Option Content)
    → ((a : A) → Keeps (f a) (g a))
    → (o p : Option A) → Keeps o p
    → Keeps (look_in f o) (look_in g p)
unfolding look_in
look_in-Keeps f g fg none p k b e = absurd (ground arith)
look_in-Keeps f g fg (some a) p k b e = ap (look_in g) (k a refl) ∙ fg a b e

pub and_also-Keeps :
    (o p : Option Content) (os ps : Option Contents)
    → Keeps o p
    → Keeps os ps
    → Keeps (and_also o os) (and_also p ps)
unfolding and_also
and_also-Keeps (some c) p (some cs) ps k ks b e = rw (k c refl, ks cs refl, e)
and_also-Keeps none p os ps k ks b e = absurd (ground arith)
and_also-Keeps (some c) p none ps k ks b e = absurd (ground arith)

pub look_each-Keeps :
    (f g : Val → Option Content)
    → ((v : Val) → Keeps (f v) (g v))
    → (vs : List Val) → Keeps (look_each f vs) (look_each g vs)
unfolding look_each
look_each-Keeps f g fg [] b e = e
look_each-Keeps f g fg (v ∷ vs) b e =
    and_also-Keeps (f v) (g v) (look_each f vs) (look_each g vs) (fg v) (look_each-Keeps f g fg vs)
      b e

one_of-Keeps : (o p : Option Cell) → Keeps o p → Keeps (one_of o) (one_of p)
unfolding one_of
one_of-Keeps none p k b e = absurd (ground arith)
one_of-Keeps (some c) p k b e = ap one_of (k c refl) ∙ e

many_of-Keeps : (o p : Option Cell) → Keeps o p → Keeps (many_of o) (many_of p)
unfolding many_of
many_of-Keeps none p k b e = absurd (ground arith)
many_of-Keeps (some c) p k b e = ap many_of (k c refl) ∙ e

entries_of-Keeps : (o p : Option Cell) → Keeps o p → Keeps (entries_of o) (entries_of p)
unfolding entries_of
entries_of-Keeps none p k b e = absurd (ground arith)
entries_of-Keeps (some c) p k b e = ap entries_of (k c refl) ∙ e

pub guard-Keeps :
    {A : Type 0} (b : Bool) (o p : Option A)
    → Keeps o p
    → Keeps (if b then o else none) (if b then p else none)
guard-Keeps true o p k a e = k a e
guard-Keeps false o p k a e = e

module _ (n m : ℕ) (h k : Heap) (g : Grows n h m k) where
  mutual
    unfolding view

    pub view-Keeps : (s : Shape) (v : Val) → Keeps (view s n h v) (view s m k v)
    view-Keeps plain (atom x) b e = e
    view-Keeps (pointer s) nil b e = e
    view-Keeps (pointer s) (ref a) b e =
        look_in-Keeps (λ v. Option.map pointee (view s n h v))
          (λ v. Option.map pointee (view s m k v))
          (λ v. map-Keeps pointee (view s n h v) (view s m k v) (view-Keeps s v))
          (one_of (cell_from n a h)) (one_of (cell_from m a k))
          (one_of-Keeps (cell_from n a h) (cell_from m a k) (g a)) b e
    view-Keeps (slice s) nil b e = e
    view-Keeps (slice s) (ref a) b e =
        look_in-Keeps (λ vs. Option.map elements (look_each (view s n h) vs))
          (λ vs. Option.map elements (look_each (view s m k) vs))
          (λ vs.
            map-Keeps elements (look_each (view s n h) vs) (look_each (view s m k) vs)
              (look_each-Keeps (view s n h) (view s m k) (view-Keeps s) vs))
          (many_of (cell_from n a h)) (many_of (cell_from m a k))
          (many_of-Keeps (cell_from n a h) (cell_from m a k) (g a)) b e
    view-Keeps mapping nil b e = e
    view-Keeps mapping (ref a) b e =
        map-Keeps keyed (entries_of (cell_from n a h)) (entries_of (cell_from m a k))
          (entries_of-Keeps (cell_from n a h) (cell_from m a k) (g a)) b e
    view-Keeps (record_of ms) (struct fs) b e =
        map-Keeps parts (view_members ms n h fs) (view_members ms m k fs) (view_members-Keeps ms fs)
          b e
    view-Keeps _ _ b e = absurd (ground arith)

    pub view_members-Keeps :
        (ms : Members) (fs : Fields) → Keeps (view_members ms n h fs) (view_members ms m k fs)
    view_members-Keeps no_more end b e = e
    view_members-Keeps (member name s ms) (field label v fs) b e =
        guard-Keeps (name == label) (and_also (view s n h v) (view_members ms n h fs))
          (and_also (view s m k v) (view_members ms m k fs))
          (and_also-Keeps (view s n h v) (view s m k v) (view_members ms n h fs)
            (view_members ms m k fs) (view-Keeps s v) (view_members-Keeps ms fs))
          b e
    view_members-Keeps _ _ b e = absurd (ground arith)
