-- ===== src/Api/DeepCopy/Objects.antt =====
-- Deep copies of whole types: DeepCopy and DeepCopyObject.
use serenedb_operator.Api.DeepCopy.Growth.{cell_from_all}
use serenedb_operator.Api.DeepCopy.Memory.{
  pointee, cell_at, one_of, ref, pointer, nil, Content, view, Shape, Heap, look_in, Val,
}
use serenedb_operator.Api.DeepCopy.Deep.{IsNew, deep_copy-IsDeep, IsDeep}
use serenedb_operator.Api.DeepCopy.Copiers.{
  object_of, runtime_object, no_object, Copier, RuntimeObject, deep_copy_object, deep_copy,
  copy_pointee, Imports, ApiType,
}
use mathlib.Core.Option
use serenedb_operator.Prelude.{
  ◌∙◌, arith, sym, ap, ◌≢◌, ◌⊎◌, some, none, inr, inl, Option, ℕ, ◌≡◌, String, refl,
}

-- The other packages' DeepCopyInto functions do what their documentation says.
abbrev pub CopiesDeeply : Imports → Type 0
CopiesDeeply i = (name : String) → IsDeep (i.shape_of name) (i.into_of name)

-- A nil pointer becomes a nil object, and any other one an object of the kind.
abbrev pub IsObjectOf : String → Val → RuntimeObject → Val → Type 0
IsObjectOf kind v o copy =
    ((v ≡ nil) × (o ≡ no_object)) ⊎ ((v ≢ nil) × (copy ≢ nil) × (o ≡ runtime_object kind copy))

-- Both methods copy deeply, to the same memory.
abbrev pub IsCopied : ApiType → Type 0
IsCopied k =
    (v : Val) (h : Heap) (t : Content)
    → view (pointer k.shape) 0 h v ≡ some t
    → IsNew (pointer k.shape) t h (k.deep_copy v h)
      × ((k.deep_copy_object v h).heap ≡ (k.deep_copy v h).heap)
      × IsObjectOf k.kind v (k.deep_copy_object v h).value (k.deep_copy v h).value

pointee_object :
    (kind : String) (s : Shape) (into : Copier) (a : ℕ) (o : Option Val) (h k : Heap) (t : Content)
    → look_in (λ v. Option.map pointee (view s 0 h v)) o ≡ some t
    → IsObjectOf kind
        (ref a)
        (object_of kind (copy_pointee into o k).value)
        (copy_pointee into o k).value
unfolding copy_pointee look_in
pointee_object kind s into a none h k t e = absurd (ground arith)
pointee_object kind s into a (some v) h k t e = inr (ground arith, ground arith, refl)

pub api_type-IsCopied :
    (kind : String) (s : Shape) (into : Copier)
    → IsDeep s into
    → IsCopied (record {
      kind = kind;
      shape = s;
      deep_copy = deep_copy into;
      deep_copy_object = deep_copy_object kind (deep_copy into);
    })
unfolding deep_copy deep_copy_object view
api_type-IsCopied kind s into d nil h t e =
    (deep_copy-IsDeep s into d nil h t e, refl, inl (refl, refl))
api_type-IsCopied kind s into d (ref a) h t e = (
  deep_copy-IsDeep s into d (ref a) h t e,
  refl,
  pointee_object kind s into a (one_of (cell_at a h)) h h t (
      ap (λ c. look_in (λ w. Option.map pointee (view s 0 h w)) (one_of c))
        (sym (cell_from_all a h))
      ∙ e),
)
api_type-IsCopied kind s into d _ h t e = absurd (ground arith)
