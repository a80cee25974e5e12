-- ===== src/Api/DeepCopy/Registry/Laws.antt =====
-- The deep copies of every registered type, and what they keep apart.
use serenedb_operator.Api.DeepCopy.Secrets.Laws.{registered_secrets-IsCopied}
use serenedb_operator.Api.DeepCopy.Server.Laws.{registered_server-IsCopied}
use serenedb_operator.Api.DeepCopy.Secrets.{registered_secrets}
use serenedb_operator.Api.DeepCopy.Server.{registered_server}
use serenedb_operator.Api.DeepCopy.Schedules.Laws.{registered_schedules-IsCopied}
use serenedb_operator.Api.DeepCopy.Schedules.{registered_schedules}
use serenedb_operator.Api.DeepCopy.Registry.Writes.{view-write_all, write_all, Misses, Write}
use serenedb_operator.Api.DeepCopy.Deep.{later, IsNew}
use serenedb_operator.Api.DeepCopy.Roles.Laws.{registered_roles-IsCopied}
use serenedb_operator.Api.DeepCopy.Roles.{registered_roles}
use serenedb_operator.Api.DeepCopy.Databases.Laws.{registered_databases-IsCopied}
use serenedb_operator.Api.DeepCopy.Databases.{registered_databases}
use serenedb_operator.Api.DeepCopy.Backups.Laws.{registered_backups-IsCopied}
use serenedb_operator.Api.DeepCopy.Backups.{registered_backups}
use serenedb_operator.Api.DeepCopy.Memory.{pointer, view, Content, Heap, Val}
use serenedb_operator.Api.DeepCopy.Objects.{IsObjectOf, IsCopied, CopiesDeeply}
use mathlib.Core.Path.{subst}
use serenedb_operator.Prelude.{arith, length, some, ◌≡◌, All-append, sym, All}
use serenedb_operator.Api.DeepCopy.Registry.{registered}
use serenedb_operator.Api.DeepCopy.Copiers.{ApiType, Imports}
use mathlib.Core.List.{List, [], ◌∷◌, ◌++◌, Memᴰ}

All-Memᴰ : {A : Type 0} (P : A → Type 0) (a : A) (xs : List A) → Memᴰ a xs → All P xs → P a
All-Memᴰ P a [] m ps = elim m [ ]
All-Memᴰ P a (x ∷ xs) (Memᴰ.head e) (p, ps) = subst P (sym e) p
All-Memᴰ P a (x ∷ xs) (Memᴰ.tail m) (p, ps) = All-Memᴰ P a xs m ps

registered-IsCopied : (i : Imports) → CopiesDeeply i → All IsCopied (registered i)
unfolding registered
registered-IsCopied i d =
    All-append IsCopied
      (registered_backups i
        ++ registered_databases i
        ++ registered_roles i
        ++ registered_schedules i
        ++ registered_server i)
      (registered_secrets i)
      (All-append IsCopied
        (registered_backups i
          ++ registered_databases i
          ++ registered_roles i
          ++ registered_schedules i)
        (registered_server i)
        (All-append IsCopied (registered_backups i ++ registered_databases i ++ registered_roles i)
          (registered_schedules i)
          (All-append IsCopied (registered_backups i ++ registered_databases i) (registered_roles i)
            (All-append IsCopied (registered_backups i) (registered_databases i)
              (registered_backups-IsCopied i d) (registered_databases-IsCopied i d))
            (registered_roles-IsCopied i d))
          (registered_schedules-IsCopied i d))
        (registered_server-IsCopied i d))
      (registered_secrets-IsCopied i d)

-- Take any of the twelve types that the package registers, a value of the pointer type, and what it
-- holds in memory. DeepCopy only adds cells, and its result holds the same in new cells alone.
-- DeepCopyObject leaves the same memory; it gives a nil object exactly for a nil pointer, and
-- otherwise the copy under the type's own kind. The DeepCopyInto functions of the other packages
-- are taken to copy deeply.
pub registered_copied :
    (i : Imports)
    → CopiesDeeply i
    → (k : ApiType) → Memᴰ k (registered i)
    → (v : Val) (h : Heap) (t : Content) → view (pointer k.shape) 0 h v ≡ some t
    → IsNew (pointer k.shape) t h (k.deep_copy v h)
      × ((k.deep_copy_object v h).heap ≡ (k.deep_copy v h).heap)
      × IsObjectOf k.kind v (k.deep_copy_object v h).value (k.deep_copy v h).value
registered_copied i d k m v h t e =
    All-Memᴰ IsCopied k (registered i) m (registered-IsCopied i d) v h t e

-- After DeepCopy of a value of any registered type, the copy holds what the original held behind
-- any assignments that miss the cells which the call added, and the original holds it behind any
-- assignments that miss the cells which were there before; allocations may stand between them. The
-- DeepCopyInto functions of the other packages are taken to copy deeply.
pub registered_isolated :
    (i : Imports)
    → CopiesDeeply i
    → (k : ApiType) → Memᴰ k (registered i)
    → (v : Val) (h : Heap) (t : Content) → view (pointer k.shape) 0 h v ≡ some t
    → (ws us : List Write) → All (Misses (length h) (length (k.deep_copy v h).heap)) ws
    → All (Misses 0 (length h)) us
    → (view (pointer k.shape) 0 (write_all ws (k.deep_copy v h).heap) (k.deep_copy v h).value
        ≡ some t)
      × (view (pointer k.shape) 0 (write_all us (k.deep_copy v h).heap) v ≡ some t)
registered_isolated i d k m v h t e ws us missed kept =
    let s = pointer k.shape in
    let r = k.deep_copy v h in
    let new = (registered_copied i d k m v h t e).0 in
    (
      later s (length h) 0 (write_all ws r.heap) (write_all ws r.heap) r.value t (omega arith)
          (λ b c q. q)
          (view-write_all s (length h) r.heap r.heap r.value t ws (λ b c q. q) new.2 missed),
      view-write_all s 0 h r.heap v t us new.1 e kept,
    )
