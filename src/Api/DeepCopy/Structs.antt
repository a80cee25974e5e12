-- ===== src/Api/DeepCopy/Structs.antt =====
-- Deep copies of the types without references, of maps, and of structs field by field.
use mathlib.Core.Path.{subst}
use serenedb_operator.Prelude.Dict.{copy, Dict}
use serenedb_operator.Api.DeepCopy.Growth.{
  Extends-Grows, copy_all, cell_from-append, Extends-trans, cell_from_all, Extends,
}
use serenedb_operator.Api.DeepCopy.Reads.{
  view_members-Keeps, and_also-Keeps, guard-Keeps, map-Keeps, Keeps,
}
use serenedb_operator.Api.DeepCopy.Deep.{
  later, also_some, allocate-IsNew, and_also_inverts, IsNew, map_inverts, IsDeep,
}
use serenedb_operator.Api.DeepCopy.Copiers.{
  copier, Overrides, struct_into, mapping_into, fields_into, copy_entries, assign,
}
use Prim.Native.String.{String}
use mathlib.Core.Option
use mathlib.Core.List.{[]}
use serenedb_operator.Prelude.{
  get_or, eq_iff, ◌==◌, ◌∙◌, sym, ap, ◌≤◌, length, ◌&&◌, some, arith, if◌then◌else◌, ◌≡◌, Option, ℕ,
  Bool, none, refl, true, false,
}
use serenedb_operator.Api.DeepCopy.Memory.{
  distinct, entries, and_also, field, parts, keyed, cell_at, view_members, ref, atom, Content,
  struct, Contents, Cell, member, entries_of, Val, Fields, view, record_of, Heap, Shape, Members,
  nil, end, plain, mapping, no_more,
}

-- No reference stands in a value of the type.
unfoldable mutual
  pub flat : Shape → Bool
  flat plain = true
  flat (record_of ms) = flat_members ms
  flat _ = false

  pub flat_members : Members → Bool
  flat_members no_more = true
  flat_members (member name s ms) = flat s && flat_members ms

and_left : (a b : Bool) → (a && b) ≡ true → a ≡ true
and_left a b p = ground arith

and_right : (a b : Bool) → (a && b) ≡ true → b ≡ true
and_right a b p = ground arith

-- Such a value holds the same in every memory.
module _ (n m : ℕ) (h k : Heap) where
  mutual
    unfolding view flat

    flat_views : (s : Shape) (v : Val) → flat s ≡ true → Keeps (view s n h v) (view s m k v)
    flat_views plain (atom x) f t e = e
    flat_views (record_of ms) (struct fs) f t e =
        map-Keeps parts (view_members ms n h fs) (view_members ms m k fs)
          (flat_members_view ms fs f) t e
    flat_views _ _ f t e = absurd (ground arith)

    flat_members_view :
        (ms : Members) (fs : Fields)
        → flat_members ms ≡ true
        → Keeps (view_members ms n h fs) (view_members ms m k fs)
    flat_members_view no_more end f t e = e
    flat_members_view (member name s ms) (field label v fs) f t e =
        guard-Keeps (name == label) (and_also (view s n h v) (view_members ms n h fs))
          (and_also (view s m k v) (view_members ms m k fs))
          (and_also-Keeps (view s n h v) (view s m k v) (view_members ms n h fs)
            (view_members ms m k fs) (flat_views s v (and_left (flat s) (flat_members ms) f))
            (flat_members_view ms fs (and_right (flat s) (flat_members ms) f)))
          t e
    flat_members_view _ _ f t e = absurd (ground arith)

pub assign-IsDeep : (s : Shape) → flat s ≡ true → IsDeep s assign
unfolding assign
assign-IsDeep s f v h t e = (omega arith, λ a c q. q, flat_views 0 (length h) h h s v f t e)

if_some :
    {A : Type 0} (b : Bool) (o : Option A) (a : A)
    → (if b then o else none) ≡ some a
    → (b ≡ true) × (o ≡ some a)
if_some true o a e = (refl, e)
if_some false o a e = absurd (ground arith)

entries_again : (d : Dict String) → distinct d ≡ true → entries_of (some (entries d)) ≡ some d
unfolding entries_of
entries_again d p = ground arith

entries_distinct : (o : Option Cell) (d : Dict String) → entries_of o ≡ some d → distinct d ≡ true
unfolding entries_of
entries_distinct (some (entries m)) d e =
    let held = if_some (distinct m) (some m) d e in
    ap distinct (ap (get_or m) (sym held.1)) ∙ held.0
entries_distinct _ d e = absurd (ground arith)

entries-IsNew :
    (o : Option Cell) (h : Heap) (t : Content)
    → Option.map keyed (entries_of o) ≡ some t
    → IsNew mapping t h (copy_entries (entries_of o) h)
unfolding copy_entries view entries_of
entries-IsNew o h t e =
    let inner = map_inverts keyed (entries_of o) t e in
    let unique = entries_distinct o inner.0 inner.1 in
    let made = entries (copy [] inner.0) in
    subst (λ x. IsNew mapping t h (copy_entries x h)) (sym inner.1)
      (allocate-IsNew h h made mapping t (omega arith) (λ a c q. q)
        (ap (λ x. Option.map keyed (entries_of x))
            (cell_from-append (length h) h made (omega arith))
          ∙ ap (λ x. Option.map keyed (entries_of (some (entries x)))) (copy_all inner.0 unique)
          ∙ ap (Option.map keyed) (entries_again inner.0 unique)
          ∙ ap some inner.2))

pub mapping_into-IsDeep : IsDeep mapping mapping_into
unfolding mapping_into view
mapping_into-IsDeep nil h t e = (omega arith, λ a c q. q, e)
mapping_into-IsDeep (ref a) h t e =
    entries-IsNew (cell_at a h) h t
      (ap (λ c. Option.map keyed (entries_of c)) (sym (cell_from_all a h)) ∙ e)
mapping_into-IsDeep _ h t e = absurd (ground arith)

-- Every field of the struct is copied deeply.
abbrev pub AllDeep : Members → Overrides → Type 0
AllDeep no_more os = Unit
AllDeep (member name s ms) os = IsDeep s (copier name os) × AllDeep ms os

-- The proofs for a struct's fields, one after the other.
infixr 5 ◌and◌
pub ◌and◌ : {A B : Type 0} → A → B → A × B
a and b = (a, b)

later_members :
    (ms : Members) (n m : ℕ) (h k : Heap) (fs : Fields) (ts : Contents)
    → m ≤ n
    → Extends h k
    → view_members ms n h fs ≡ some ts
    → view_members ms m k fs ≡ some ts
later_members ms n m h k fs ts le ext e =
    view_members-Keeps n m h k (Extends-Grows n m h k le ext) ms fs ts e

fields-IsNew :
    (os : Overrides) (ms : Members) (fs : Fields) (h : Heap) (ts : Contents)
    → AllDeep ms os
    → view_members ms 0 h fs ≡ some ts
    → (length h ≤ length (fields_into os fs h).heap)
      × Extends h (fields_into os fs h).heap
      × (view_members ms (length h) (fields_into os fs h).heap (fields_into os fs h).value
          ≡ some ts)
unfolding fields_into view
fields-IsNew os no_more end h ts d e = (omega arith, λ a c q. q, e)
fields-IsNew os (member name s ms) (field label v fs) h ts d e =
    let held = if_some (name == label) (and_also (view s 0 h v) (view_members ms 0 h fs)) ts e in
    let both = and_also_inverts (view s 0 h v) (view_members ms 0 h fs) ts held.1 in
    let same = (eq_iff name label).0 held.0 in
    let r = copier label os v h in
    let new = subst (λ l. IsDeep s (copier l os)) same d.0 v h both.0 both.2 in
    let tail =
      fields-IsNew os ms fs r.heap both.1 d.1
        (later_members ms 0 0 h r.heap fs both.1 (omega arith) new.1 both.3) in
    let more = fields_into os fs r.heap in
    let n = length h in
    (
      omega (arith, new.0, tail.0),
      Extends-trans h r.heap more.heap new.1 tail.1,
      ap
            (λ b.
              if b
              then and_also (view s n more.heap r.value) (view_members ms n more.heap more.value)
              else none)
            held.0
          ∙ also_some (view s n more.heap r.value) (view_members ms n more.heap more.value) both.0
              both.1 ts (later s n n r.heap more.heap r.value both.0 (omega arith) tail.1 new.2)
              (later_members ms (length r.heap) n more.heap more.heap more.value both.1 new.0
                (λ a q p. p) tail.2)
              both.4,
    )
fields-IsNew os _ fs h ts d e = absurd (ground arith)

pub struct_into-IsDeep :
    (ms : Members) (os : Overrides) → AllDeep ms os → IsDeep (record_of ms) (struct_into os)
unfolding struct_into view
struct_into-IsDeep ms os d (struct fs) h t e =
    let inner = map_inverts parts (view_members ms 0 h fs) t e in
    let new = fields-IsNew os ms fs h inner.0 d inner.1 in
    (new.0, new.1, ap (Option.map parts) new.2 ∙ ap some inner.2)
struct_into-IsDeep ms os d _ h t e = absurd (ground arith)
