-- ===== src/Prelude/Dict.antt =====
-- Go maps with string keys, as association lists without repeated keys.
pub mod Laws
use Prim.Native.String.{String}
use mathlib.Core.Path.{◌≡◌, refl}
use mathlib.Core.Option.{Option, none, some}
use mathlib.Core.List.{List, [], ◌∷◌}
use native.Mathlib.Omega.{arith}
use text.Mathlib.TextEquality.{eq_iff}
use serenedb_operator.Prelude.Tests.{if◌then◌else◌}
use serenedb_operator.Prelude.Texts.{◌==◌}

abbrev pub Dict {ℓ} : Type ℓ → Type ℓ
Dict V = List (String × V)

module _ {ℓ} {V : Type ℓ} where
  -- `m[key]` with the second result: `none` where the key is missing.
  unfoldable pub lookup : String → Dict V → Option V
  lookup key [] = none
  lookup key (entry ∷ rest) =
      let found = lookup key rest in if entry.0 == key then some entry.1 else found

  -- `m[key] = value`
  unfoldable pub insert : String → V → Dict V → Dict V
  insert key value [] = (key, value) ∷ []
  insert key value (entry ∷ rest) =
      let kept = insert key value rest in
      if entry.0 == key then (key, value) ∷ rest else entry ∷ kept

  -- The loop `for k, v := range src { dst[k] = v }`, which is also `maps.Copy(dst, src)`.
  unfoldable pub copy : Dict V → Dict V → Dict V
  copy dst [] = dst
  copy dst ((k, v) ∷ src) = copy (insert k v dst) src

  -- Only the key that is written changes.
  pub lookup-insert :
      (key other : String) (value : V) (d : Dict V)
      → lookup other (insert key value d) ≡ (if key == other then some value else lookup other d)
  unfolding lookup insert
  lookup-insert key other value [] = refl
  lookup-insert key other value ((name, held) ∷ rest) = ground (
    arith,
    lookup-insert key other value rest,
    eq_iff name other,
    eq_iff name key,
    eq_iff key other,
  )
