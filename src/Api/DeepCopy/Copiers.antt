-- ===== src/Api/DeepCopy/Copiers.antt =====
-- The steps that controller-gen writes a DeepCopyInto from. A new cell is filled when it is allocated,
-- where the Go code allocates it first: the contents are the same, and the address is as new. A
-- value that is not of the type, which Go's compiler excludes, is copied to nil or kept.
use serenedb_operator.Prelude.Dict.{copy, Dict}
use Prim.Native.String.{String}
use mathlib.Core.List.{[], ◌∷◌, ◌++◌}
use serenedb_operator.Api.DeepCopy.Memory.{
  Shape, one, many, entries, cell_at, one_of, many_of, field, entries_of, struct, ref, Val, Heap,
  Fields, Cell, nil, end,
}
use serenedb_operator.Prelude.{◌==◌, some, length, if◌then◌else◌, Option, List, none}

pub record Copied {ℓ} (A : Type ℓ) : Type ℓ where
  pub value : A
  pub heap : Heap

-- What a DeepCopyInto writes to `out` for the value `in`, and the memory behind it.
abbrev pub Copier : Type 0
Copier = Val → Heap → Copied Val

abbrev pub allocate : Cell → Heap → Copied Val
allocate c h = record { value = ref (length h); heap = h ++ c ∷ [] }

-- `*out = *in`
unfoldable pub assign : Copier
assign v h = record { value = v; heap = h }

unfoldable pub copy_pointee : Copier → Option Val → Heap → Copied Val
copy_pointee into none h = record { value = nil; heap = h }
copy_pointee into (some v) h = let r = into v h in allocate (one r.value) r.heap

-- A DeepCopy: nil for nil, else a new value that the DeepCopyInto fills. A field that is a pointer
-- is copied the same way, with its own test of nil.
unfoldable pub deep_copy : Copier → Copier
deep_copy into (ref a) h = copy_pointee into (one_of (cell_at a h)) h
deep_copy into _ h = record { value = nil; heap = h }

-- `for i := range *in`, and `copy(*out, *in)` where an element is assigned.
unfoldable pub copy_each : Copier → List Val → Heap → Copied (List Val)
copy_each into [] h = record { value = []; heap = h }
copy_each into (v ∷ vs) h =
    let r = into v h in
    let rest = copy_each into vs r.heap in record { value = r.value ∷ rest.value; heap = rest.heap }

unfoldable pub copy_many : Copier → Option (List Val) → Heap → Copied Val
copy_many into none h = record { value = nil; heap = h }
copy_many into (some vs) h = let r = copy_each into vs h in allocate (many r.value) r.heap

-- `if in.F != nil { *out = make([]T, len(*in)) ... }`
unfoldable pub slice_into : Copier → Copier
slice_into into (ref a) h = copy_many into (many_of (cell_at a h)) h
slice_into into _ h = record { value = nil; heap = h }

unfoldable pub copy_entries : Option (Dict String) → Heap → Copied Val
copy_entries none h = record { value = nil; heap = h }
copy_entries (some d) h = allocate (entries (copy [] d)) h

-- `if in.F != nil { *out = make(map[string]string, len(*in)); for key, val := range *in ... }`
unfoldable pub mapping_into : Copier
mapping_into (ref a) h = copy_entries (entries_of (cell_at a h)) h
mapping_into _ h = record { value = nil; heap = h }

-- The fields that a DeepCopyInto sets after `*out = *in`, in the order of their declaration.
abbrev pub Overrides : Type 0
Overrides = List (String × Copier)

-- A field that is not set stays as it was assigned.
unfoldable pub copier : String → Overrides → Copier
copier name [] = assign
copier name (o ∷ os) = let later = copier name os in if o.0 == name then o.1 else later

unfoldable pub fields_into : Overrides → Fields → Heap → Copied Fields
fields_into os end h = record { value = end; heap = h }
fields_into os (field name v fs) h =
    let r = copier name os v h in
    let rest = fields_into os fs r.heap in
    record { value = field name r.value rest.value; heap = rest.heap }

-- `*out = *in`, then these fields.
unfoldable pub struct_into : Overrides → Copier
struct_into os (struct fs) h =
    let r = fields_into os fs h in record { value = struct r.value; heap = r.heap }
struct_into os v h = assign v h

-- A `runtime.Object`: nil, or a pointer with its type.
pub data RuntimeObject : Type 0 where
  no_object : RuntimeObject
  runtime_object : String → Val → RuntimeObject

abbrev pub object_of : String → Val → RuntimeObject
object_of kind nil = no_object
object_of kind v = runtime_object kind v

-- `if c := in.DeepCopy(); c != nil { return c }; return nil`
unfoldable pub deep_copy_object : String → Copier → Val → Heap → Copied RuntimeObject
deep_copy_object kind copy v h =
    let c = copy v h in record { value = object_of kind c.value; heap = c.heap }

-- A type of another package with a DeepCopyInto of its own: the type, and what that does.
pub record Imports : Type 0 where
  pub shape_of : String → Shape
  pub into_of : String → Copier

-- A type that the package registers with the scheme, with its generated methods.
pub record ApiType : Type 0 where
  pub kind : String
  pub shape : Shape
  pub deep_copy : Copier
  pub deep_copy_object : Val → Heap → Copied RuntimeObject
