-- ===== src/Prelude/Split.antt =====
-- Texts split at a character.
use Prim.Native.Char.{Char, code}
use Prim.Native.String.{String}
use mathlib.Core.Path.{◌≡◌, refl}
use mathlib.Core.Bool.{Bool, true, not}
use mathlib.Core.List.{List, [], ◌∷◌}
use native.Mathlib.Omega.{arith}
use serenedb_operator.Prelude.Tests.{◌==ℕ◌, if◌then◌else◌}
use serenedb_operator.Prelude.Texts.{◌<>◌, each, nil-concat, cons-concat}

-- The character does not stand in the text.
abbrev pub lacks : Char → String → Bool
lacks q s = each (λ c. not (code c ==ℕ code q)) s

abbrev push : Char → List String → List String
push c [] = String.◌∷◌ c "" ∷ []
push c (w ∷ ws) = String.◌∷◌ c w ∷ ws

unfoldable pub split : Char → String → List String
split q String.[] = "" ∷ []
split q (String.◌∷◌ c s) =
    let rest = split q s in if code c ==ℕ code q then "" ∷ rest else push c rest

pub split-append :
    (q : Char) (w rest : String)
    → lacks q w ≡ true
    → split q (w <> String.◌∷◌ q rest) ≡ w ∷ split q rest
unfolding split
split-append q String.[] rest h = rw (nil-concat (String.◌∷◌ q rest)) (ground arith)
split-append q (String.◌∷◌ c w) rest h =
    rw (cons-concat c w (String.◌∷◌ q rest)) (ground (arith, split-append q w rest))

pub split_last : (q : Char) (w : String) → lacks q w ≡ true → split q w ≡ w ∷ []
unfolding split
split_last q String.[] h = refl
split_last q (String.◌∷◌ c w) h = ground (arith, split_last q w)

pub lacks-append :
    (q : Char) (a b : String) → lacks q a ≡ true → lacks q b ≡ true → lacks q (a <> b) ≡ true
lacks-append q String.[] b ha hb = rw (nil-concat b) hb
lacks-append q (String.◌∷◌ c a) b ha hb =
    rw (cons-concat c a b) (ground (arith, lacks-append q a b))
