-- ===== src/Prelude/Dict/Laws.antt =====
-- What a map holds behind a copy into it.
use Prim.Native.String.{String}
use mathlib.Core.Path.{◌≡◌, refl}
use mathlib.Core.Option.{Option, none, some}
use mathlib.Core.List.{[], ◌∷◌}
use native.Mathlib.Omega.{arith}
use text.Mathlib.TextEquality.{eq_iff}
use serenedb_operator.Prelude.Dict.{Dict, lookup, insert, copy, lookup-insert}

abbrev pub or_else {ℓ} : {V : Type ℓ} → Option V → Option V → Option V
or_else none o = o
or_else (some v) o = some v

module _ {ℓ} {V : Type ℓ} where
  -- No key stands twice, as in any Go map.
  abbrev pub IsDistinct : Dict V → Type ℓ
  IsDistinct [] = Unit
  IsDistinct ((k, v) ∷ m) = (lookup k m ≡ none) × IsDistinct m

  -- A copy lays the source over the destination.
  pub lookup-copy :
      (k : String) (dst src : Dict V)
      → IsDistinct src
      → lookup k (copy dst src) ≡ or_else (lookup k src) (lookup k dst)
  unfolding copy lookup
  lookup-copy k dst [] d = refl
  lookup-copy k dst ((j, v) ∷ src) (fresh, d) =
      ground (arith, eq_iff j k, lookup-copy k (insert j v dst) src d, lookup-insert j k v dst)
