-- ===== src/Prelude/Sort.antt =====
-- `sort.Slice` and `sort.Strings`. On a strict total order the sorted list is unique, so the choice of
-- algorithm does not show; insertion is the one taken here.
use Prim.Native.Char.{code}
use Prim.Native.String.{String}
use mathlib.Core.Path.{◌≡◌, refl, sym, ◌∙◌}
use mathlib.Core.Logic.{inl, inr, ∥∥₁_elim}
use mathlib.Core.Bool.{Bool, true, false, ◌||◌, false≢true}
use mathlib.Core.List.{List, [], ◌∷◌, Perm, Permᴰ}
use mathlib.Core.List.Perm
use mathlib.Core.HLevel.{hedberg}
use native.Mathlib.Omega.{arith}
use text.Mathlib.TextEquality.{Char-path, eq_iff}
use serenedb_operator.Prelude.Tests.{ltb, ◌==ℕ◌, if◌then◌else◌, Bool-cases}
use serenedb_operator.Prelude.Texts.{◌==◌}
use serenedb_operator.Prelude.Lists.{All, any}

module _ {ℓ} {A : Type ℓ} (less : A → A → Bool) where
  unfoldable pub insert : A → List A → List A
  insert x [] = x ∷ []
  insert x (y ∷ ys) = if less y x then y ∷ insert x ys else x ∷ y ∷ ys

  unfoldable pub sort : List A → List A
  unfolding insert
  sort [] = []
  sort (x ∷ xs) = insert x (sort xs)

-- A strict weak order; it is total where elements that neither is smaller than the other are equal.
pub record IsOrder {ℓ} {A : Type ℓ} (less : A → A → Bool) : Type ℓ where
  pub asym : (x y : A) → less x y ≡ true → less y x ≡ false
  pub le_trans : (x y z : A) → less y x ≡ false → less z y ≡ false → less z x ≡ false

abbrev pub IsTotal {ℓ} : {A : Type ℓ} → (A → A → Bool) → Type ℓ
IsTotal {A = A} less = (x y : A) → less x y ≡ false → less y x ≡ false → x ≡ y

-- No later element is smaller.
abbrev pub IsSorted {ℓ} : {A : Type ℓ} (less : A → A → Bool) → List A → Type 0
IsSorted less [] = Unit
IsSorted less (x ∷ xs) = All (λ y. less y x ≡ false) xs × IsSorted less xs

module _ {ℓ} {A : Type ℓ} (less : A → A → Bool) where
  insert-perm : (x : A) (l : List A) → Perm (insert less x l) (x ∷ l)
  unfolding insert
  insert-perm x [] = Perm.refl (x ∷ [])
  insert-perm x (y ∷ ys) = elim (Bool-cases (less y x)) [
    | inl e ↦ rw e (Perm.trans (Perm.cons y (insert-perm x ys)) (Perm.swap x y ys))
    | inr e ↦ rw e (Perm.refl (x ∷ y ∷ ys))
  ]

  pub sort-perm : (l : List A) → Perm (sort less l) l
  unfolding sort
  sort-perm [] = Perm.refl []
  sort-perm (x ∷ xs) = Perm.trans (insert-perm x (sort less xs)) (Perm.cons x (sort-perm xs))

-- A test holds of some element before and behind a sort.
module _ {ℓ} {A : Type ℓ} (less : A → A → Bool) (p : A → Bool) where
  any-insert : (x : A) (l : List A) → any p (insert less x l) ≡ (p x || any p l)
  unfolding insert
  any-insert x [] = refl
  any-insert x (y ∷ ys) = ground (arith, any-insert x ys)

  pub any-sort : (l : List A) → any p (sort less l) ≡ any p l
  unfolding sort
  any-sort [] = refl
  any-sort (x ∷ xs) = ground (arith, any-sort xs, any-insert x (sort less xs))

module _ {ℓ} {A : Type ℓ} {less : A → A → Bool} (o : IsOrder less) where
  All-insert :
      (x z : A) (l : List A)
      → less z x ≡ false
      → All (λ y. less y x ≡ false) l
      → All (λ y. less y x ≡ false) (insert less z l)
  unfolding insert
  All-insert x z [] h a = (h, tt)
  All-insert x z (y ∷ ys) h (hy, a) = elim (Bool-cases (less y z)) [
    | inl e ↦ rw e (hy, All-insert x z ys h a)
    | inr e ↦ rw e (h, (hy, a))
  ]

  All-below :
      (x y : A) (l : List A)
      → less y x ≡ false
      → All (λ z. less z y ≡ false) l
      → All (λ z. less z x ≡ false) l
  All-below x y [] h a = tt
  All-below x y (z ∷ l) h (hz, a) = (o.le_trans x y z h hz, All-below x y l h a)

  insert-IsSorted : (x : A) (l : List A) → IsSorted less l → IsSorted less (insert less x l)
  unfolding insert
  insert-IsSorted x [] s = (tt, tt)
  insert-IsSorted x (y ∷ ys) (a, s) = elim (Bool-cases (less y x)) [
    | inl e ↦ rw e (All-insert y x ys (o.asym y x e) a, insert-IsSorted x ys s)
    | inr e ↦ rw e ((e, All-below x y ys e a), (a, s))
  ]

  pub sort-IsSorted : (l : List A) → IsSorted less (sort less l)
  unfolding sort
  sort-IsSorted [] = tt
  sort-IsSorted (x ∷ xs) = insert-IsSorted x (sort less xs) (sort-IsSorted xs)

module _ {ℓ} {A : Type ℓ} {less : A → A → Bool} (o : IsOrder less) (total : IsTotal less) where
  insert_comm :
      (x y : A) (l : List A) → insert less x (insert less y l) ≡ insert less y (insert less x l)
  unfolding insert
  insert_comm x y [] = ground (arith, o.asym x y, total x y)
  insert_comm x y (z ∷ l) = ground (
    arith,
    insert_comm x y l,
    o.asym x y,
    total x y,
    o.asym z x,
    o.asym z y,
    total z x,
    total z y,
    o.le_trans x y z,
    o.le_trans y x z,
    o.le_trans z y x,
    o.le_trans z x y,
    o.le_trans x z y,
    o.le_trans y z x,
  )

  sort_of_permᴰ : {xs ys : List A} → Permᴰ xs ys → sort less xs ≡ sort less ys
  unfolding sort
  sort_of_permᴰ Permᴰ.nil = refl
  sort_of_permᴰ (Permᴰ.cons e p) = cc (sort_of_permᴰ p, e)
  sort_of_permᴰ (Permᴰ.swap {a = x} {b = y} {l = l} e f) =
      rw (← e, ← f) (insert_comm x y (sort less l))
  sort_of_permᴰ (Permᴰ.trans p q) = sort_of_permᴰ p ∙ sort_of_permᴰ q

-- The order of `sort.Strings`.
unfoldable pub str_less : String → String → Bool
str_less s String.[] = false
str_less String.[] (String.◌∷◌ d t) = true
str_less (String.◌∷◌ c s) (String.◌∷◌ d t) =
    let rest = str_less s t in
    if ltb (code c) (code d) then true else if code c ==ℕ code d then rest else false

str_asym : (s t : String) → str_less s t ≡ true → str_less t s ≡ false
unfolding str_less
str_asym s String.[] h = cc
str_asym String.[] (String.◌∷◌ d t) h = refl
str_asym (String.◌∷◌ c s) (String.◌∷◌ d t) h = ground (arith, str_asym s t)

str_total : (s t : String) → str_less s t ≡ false → str_less t s ≡ false → s ≡ t
unfolding str_less
str_total String.[] String.[] h k = refl
str_total String.[] (String.◌∷◌ d t) h k = cc
str_total (String.◌∷◌ c s) String.[] h k = cc
str_total (String.◌∷◌ c s) (String.◌∷◌ d t) h k = ground (arith, str_total s t, Char-path c d)

str_le_trans : (s t u : String) → str_less t s ≡ false → str_less u t ≡ false → str_less u s ≡ false
unfolding str_less
str_le_trans String.[] t String.[] h k = refl
str_le_trans String.[] String.[] (String.◌∷◌ e u) h k = refl
str_le_trans String.[] (String.◌∷◌ d t) (String.◌∷◌ e u) h k = refl
str_le_trans (String.◌∷◌ c s) String.[] u h k = cc
str_le_trans (String.◌∷◌ c s) (String.◌∷◌ d t) String.[] h k = cc
str_le_trans (String.◌∷◌ c s) (String.◌∷◌ d t) (String.◌∷◌ e u) h k =
    ground (arith, str_le_trans s t u)

pub str_less-IsOrder : IsOrder str_less
str_less-IsOrder = record { asym = str_asym; le_trans = str_le_trans }

pub String-discrete : Discrete String
String-discrete s t = elim (Bool-cases (s == t)) [
  | inl e ↦ yes ((eq_iff s t).0 e)
  | inr e ↦ no (λ p. false≢true (sym e ∙ (eq_iff s t).1 p))
]

pub String-set : IsSet String
String-set = hedberg String-discrete

pub String_list_set : IsSet (List String)
String_list_set = hlevel String-set

-- The keys of a map sort to one list, whatever the order in which they are met.
pub sort_of_perm : (xs ys : List String) → Perm xs ys → sort str_less xs ≡ sort str_less ys
sort_of_perm xs ys p = ∥∥₁_elim p (String_list_set _ _) (sort_of_permᴰ str_less-IsOrder str_total)
