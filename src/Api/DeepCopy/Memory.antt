-- ===== src/Api/DeepCopy/Memory.antt =====
-- Go's memory, as far as a deep copy touches it: cells at addresses, the values that refer to them,
-- the shapes of the Go types, and what a value of a type holds when it is read through the memory.
use serenedb_operator.Prelude.Dict.{lookup, Dict}
use serenedb_operator.Prelude.{
  is_some, ◌==◌, zero, suc, true, ltb, false, some, none, if◌then◌else◌, Bool, ℕ, Option, List,
}
use Prim.Native.String.{String}
use mathlib.Core.Option
use mathlib.Core.List.{[], ◌∷◌}

-- A value of a type without references is one text. The pointers, slices and maps are nil or refer to
-- a cell by its address; a struct holds its fields one after the other.
mutual
  pub data Val : Type 0 where
    atom : String → Val
    nil : Val
    ref : ℕ → Val
    struct : Fields → Val

  pub data Fields : Type 0 where
    end : Fields
    field : String → Val → Fields → Fields

-- What a pointer, a slice and a `map[string]string` refer to.
pub data Cell : Type 0 where
  one : Val → Cell
  many : List Val → Cell
  entries : Dict String → Cell

-- A cell's address is its position; nothing is freed while something refers to it.
abbrev pub Heap : Type 0
Heap = List Cell

unfoldable pub cell_at : ℕ → Heap → Option Cell
cell_at a [] = none
cell_at zero (c ∷ h) = some c
cell_at (suc a) (c ∷ h) = cell_at a h

-- A Go type: no references in it, `*T`, `[]T`, `map[string]string`, or a struct.
mutual
  pub data Shape : Type 0 where
    plain : Shape
    pointer : Shape → Shape
    slice : Shape → Shape
    mapping : Shape
    record_of : Members → Shape

  pub data Members : Type 0 where
    no_more : Members
    member : String → Shape → Members → Members

abbrev pub members_of : List (String × Shape) → Members
members_of [] = no_more
members_of ((name, s) ∷ ms) = member name s (members_of ms)

-- A struct type with these fields.
abbrev pub struct_of : List (String × Shape) → Shape
struct_of ms = record_of (members_of ms)

-- What a value holds when the addresses are forgotten.
mutual
  pub data Content : Type 0 where
    scalar : String → Content
    absent : Content
    pointee : Content → Content
    elements : Contents → Content
    keyed : Dict String → Content
    parts : Contents → Content

  pub data Contents : Type 0 where
    no_parts : Contents
    also : Content → Contents → Contents

-- A Go map has each key once.
unfoldable pub distinct : Dict String → Bool
distinct [] = true
distinct ((k, v) ∷ m) = let rest = distinct m in if is_some (lookup k m) then false else rest

-- The cell at an address that is not below the bound.
unfoldable pub cell_from : ℕ → ℕ → Heap → Option Cell
cell_from n a h = if ltb a n then none else cell_at a h

unfoldable pub one_of : Option Cell → Option Val
one_of (some (one v)) = some v
one_of _ = none

unfoldable pub many_of : Option Cell → Option (List Val)
many_of (some (many vs)) = some vs
many_of _ = none

unfoldable pub entries_of : Option Cell → Option (Dict String)
entries_of (some (entries d)) = if distinct d then some d else none
entries_of _ = none

unfoldable pub and_also : Option Content → Option Contents → Option Contents
and_also (some c) (some cs) = some (also c cs)
and_also _ _ = none

-- Every value of a list, each read by `look`.
unfoldable pub look_each : (Val → Option Content) → List Val → Option Contents
look_each look [] = some no_parts
look_each look (v ∷ vs) = and_also (look v) (look_each look vs)

-- `none` stands for no value.
unfoldable pub look_in {ℓ} : {A : Type ℓ} → (A → Option Content) → Option A → Option Content
look_in look none = none
look_in look (some a) = look a

-- What a value of the type holds, where it is a value of that type and every address that it
-- reaches is `n` or above; `none` otherwise.
unfoldable mutual
  pub view : Shape → ℕ → Heap → Val → Option Content
  view plain n h (atom x) = some (scalar x)
  view (pointer s) n h nil = some absent
  view (pointer s) n h (ref a) =
      look_in (λ v. Option.map pointee (view s n h v)) (one_of (cell_from n a h))
  view (slice s) n h nil = some absent
  view (slice s) n h (ref a) =
      look_in (λ vs. Option.map elements (look_each (view s n h) vs)) (many_of (cell_from n a h))
  view mapping n h nil = some absent
  view mapping n h (ref a) = Option.map keyed (entries_of (cell_from n a h))
  view (record_of ms) n h (struct fs) = Option.map parts (view_members ms n h fs)
  view _ n h v = none

  pub view_members : Members → ℕ → Heap → Fields → Option Contents
  view_members no_more n h end = some no_parts
  view_members (member name s ms) n h (field label v fs) =
      if name == label then and_also (view s n h v) (view_members ms n h fs) else none
  view_members _ n h fs = none
