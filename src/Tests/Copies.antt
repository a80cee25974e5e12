-- ===== src/Tests/Copies.antt =====
-- A ServerSecret in Go's memory, its deep copy, and writes to both.
use serenedb_operator.Prelude.Dict.{lookup}
use serenedb_operator.Api.DeepCopy.Registry.Laws.{registered_copied, registered_isolated}
use serenedb_operator.Api.DeepCopy.Registry.Writes.{grow, store, write_all, Write}
use serenedb_operator.Api.DeepCopy.Deep.{IsNew}
use serenedb_operator.Api.DeepCopy.Server.{registered_server}
use serenedb_operator.Api.DeepCopy.Schedules.{registered_schedules}
use serenedb_operator.Api.DeepCopy.Dependents.{cluster_ref_shape, dependent_status_shape}
use serenedb_operator.Api.DeepCopy.Roles.{registered_roles}
use serenedb_operator.Api.DeepCopy.Structs.{◌and◌, mapping_into-IsDeep, struct_into-IsDeep}
use serenedb_operator.Api.DeepCopy.Databases.{registered_databases}
use serenedb_operator.Api.DeepCopy.Secrets.{
  registered_secrets, server_secret_status_shape, server_secret_deep_copy_object,
  server_secret_spec_shape, server_secret_deep_copy, server_secret_shape,
}
use serenedb_operator.Api.DeepCopy.Objects.{IsObjectOf, CopiesDeeply}
use serenedb_operator.Api.DeepCopy.Backups.{registered_backups}
use serenedb_operator.Api.DeepCopy.Registry.{registered}
use serenedb_operator.Api.DeepCopy.Copiers.{mapping_into, struct_into, copier, Imports, ApiType}
use mathlib.Core.List.{List, [], ◌∷◌, Memᴰ}
use serenedb_operator.Prelude.{arith, inr, inl, some, ◌≡◌, ℕ, refl}
use serenedb_operator.Api.DeepCopy.Memory.{
  scalar, no_parts, distinct, look_each, and_also, cell_at, cell_from, nil, entries_of, many_of,
  one_of, look_in, pointer, end, elements, ref, many, keyed, field, atom, struct, one, also,
  struct_of, pointee, parts, entries, Val, view, Heap, Content, mapping,
}

-- In place of every type of another package: a struct with a map.
abbrev imports : Imports
imports = record {
  shape_of = λ name. struct_of (("Labels", mapping) ∷ []);
  into_of = λ name. struct_into (("Labels", mapping_into) ∷ []);
}

imports-CopiesDeeply : CopiesDeeply imports
unfolding copier
imports-CopiesDeeply name = struct_into-IsDeep _ _ (mapping_into-IsDeep and tt)

abbrev labelled : ℕ → Val
labelled a = struct (field "Labels" (ref a) end)

-- A cluster's secret with two options, a Secret for the values, and one condition.
abbrev memory : Heap
memory =
    entries (("app", "db") ∷ [])
    ∷ entries (("KEY_ID", "a") ∷ ("REGION", "eu") ∷ [])
    ∷ one (atom "values")
    ∷ many (labelled 0 ∷ [])
    ∷ one (
        struct (
          field "TypeMeta" (atom "ServerSecret") (
            field "ObjectMeta" (labelled 0) (
              field "Spec"
                (struct (
                  field "Cluster" (struct (field "Name" (atom "main") end)) (
                    field "Name" (atom "lake") (
                      field "Type" (atom "s3") (
                        field "Scope" (atom "")
                          (field "Options" (ref 1) (field "ValuesFrom" (ref 2) end)))))))
                (field "Status"
                  (struct (
                    field "DependentStatus"
                      (struct
                        (field "ObservedGeneration" (atom "1") (field "Conditions" (ref 3) end)))
                      (field "ValuesSecretVersion" (atom "7") end)))
                  end)))))
    ∷ []

abbrev secret_type : ApiType
secret_type = record {
  kind = "ServerSecret";
  shape = server_secret_shape imports;
  deep_copy = server_secret_deep_copy imports;
  deep_copy_object = server_secret_deep_copy_object imports;
}

secret_type-registered : Memᴰ secret_type (registered imports)
unfolding registered registered_backups registered_databases registered_roles registered_schedules
    registered_server registered_secrets
secret_type-registered = Memᴰ.tail (
    Memᴰ.tail (
      Memᴰ.tail (
        Memᴰ.tail (
          Memᴰ.tail (Memᴰ.tail (Memᴰ.tail (Memᴰ.tail (Memᴰ.tail (Memᴰ.tail (Memᴰ.head refl))))))))))

abbrev all_labels : Content
all_labels = parts (also (keyed (("app", "db") ∷ [])) no_parts)

abbrev held : Content
held = pointee (
    parts (
      also (scalar "ServerSecret") (
        also all_labels (
          also
            (parts (
              also (parts (also (scalar "main") no_parts)) (
                also (scalar "lake") (
                  also (scalar "s3") (
                    also (scalar "") (
                      also (keyed (("KEY_ID", "a") ∷ ("REGION", "eu") ∷ []))
                        (also (pointee (scalar "values")) no_parts)))))))
            (also
              (parts (
                also
                  (parts (also (scalar "1") (also (elements (also all_labels no_parts)) no_parts)))
                  (also (scalar "7") no_parts)))
              no_parts)))))

memory_holds : view (pointer (server_secret_shape imports)) 0 memory (ref 4) ≡ some held
unfolding view server_secret_shape server_secret_spec_shape server_secret_status_shape
    dependent_status_shape cluster_ref_shape look_in one_of many_of entries_of cell_from cell_at
    and_also look_each distinct lookup
memory_holds = refl

registered_copied_example :
    IsNew
      (pointer (server_secret_shape imports))
      held
      memory
      (server_secret_deep_copy imports (ref 4) memory)
    × ((server_secret_deep_copy_object imports (ref 4) memory).heap
        ≡ (server_secret_deep_copy imports (ref 4) memory).heap)
    × IsObjectOf "ServerSecret"
        (ref 4)
        (server_secret_deep_copy_object imports (ref 4) memory).value
        (server_secret_deep_copy imports (ref 4) memory).value
registered_copied_example =
    registered_copied imports imports-CopiesDeeply secret_type secret_type-registered (ref 4) memory
      held memory_holds

-- The original's options and status are written over, and a map of the copy.
abbrev on_original : List Write
on_original = store 1 (entries []) ∷ grow (entries []) ∷ store 4 (one nil) ∷ []

abbrev on_copy : List Write
on_copy = store 5 (entries (("app", "other") ∷ [])) ∷ []

registered_isolated_example :
    (view
        (pointer (server_secret_shape imports))
        0
        (write_all on_original (server_secret_deep_copy imports (ref 4) memory).heap)
        (server_secret_deep_copy imports (ref 4) memory).value
      ≡ some held)
    × (view
          (pointer (server_secret_shape imports))
          0
          (write_all on_copy (server_secret_deep_copy imports (ref 4) memory).heap)
          (ref 4)
        ≡ some held)
registered_isolated_example =
    registered_isolated imports imports-CopiesDeeply secret_type secret_type-registered (ref 4)
      memory held memory_holds on_original on_copy
      (inl (omega arith), (tt, (inl (omega arith), tt))) (inr (omega arith), tt)
