-- ===== src/Prelude/Texts.antt =====
-- Texts: the native strings under operators that do not clash with those of lists.
use Prim.Native.Char.{Char}
use text.Mathlib.TextLemmas.{nil-append, cons-append, append-nil, append_assoc}
use Prim.Native.String.{String, ◌++◌ as append}
use mathlib.Core.Path.{◌≡◌, ap, ◌∙◌}
use mathlib.Core.Bool.{Bool, true, ◌&&◌}
use mathlib.Core.List.{List, [], ◌∷◌}
use text.Mathlib.Text.{◌==◌ as str_eq}
use serenedb_operator.Prelude.Tests.{if◌then◌else◌}

-- `a + b` on strings.
infixr 65 ◌<>◌
abbrev pub ◌<>◌ : String → String → String
a <> b = append a b

infix 50 ◌==◌
abbrev pub ◌==◌ : String → String → Bool
a == b = str_eq a b

-- `strings.Join`.
unfoldable pub join : List String → String → String
join [] sep = ""
join (x ∷ []) sep = x
join (x ∷ y ∷ xs) sep = x <> sep <> join (y ∷ xs) sep

-- The value, or the fallback where the value is empty.
abbrev pub non_empty_or : String → String → String
non_empty_or value fallback = if value == "" then fallback else value

-- Every character passes the test.
abbrev pub each : (Char → Bool) → String → Bool
each p String.[] = true
each p (String.◌∷◌ c s) = p c && each p s

-- How the concatenation of texts computes: at a variable it does so only by these equations.
pub nil-concat : (t : String) → "" <> t ≡ t
nil-concat t = nil-append t

pub cons-concat : (c : Char) (s t : String) → String.◌∷◌ c s <> t ≡ String.◌∷◌ c (s <> t)
cons-concat c s t = cons-append c s t

pub one-concat : (c : Char) (t : String) → String.◌∷◌ c "" <> t ≡ String.◌∷◌ c t
one-concat c t = cons-append c "" t ∙ ap (String.◌∷◌ c) (nil-append t)

pub concat-nil : (s : String) → s <> "" ≡ s
concat-nil s = append-nil s

pub concat_assoc : (s t u : String) → (s <> t) <> u ≡ s <> t <> u
concat_assoc s t u = append_assoc s t u

pub ruleset texts = (nil-concat, cons-concat, one-concat, concat-nil, concat_assoc)
