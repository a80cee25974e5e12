-- ===== src/Resources/Config/Digest.antt =====
-- internal/resources/configmap.go: the text that `ConfigHash` digests tells two ConfigMaps apart.
use mathlib.Core.Path.{subst}
use serenedb_operator.Prelude.{
  ◌≡◌, refl, ap, sym, ◌∙◌, String, Bool, true, false, Option, none, some, List, [], ◌∷◌, map, any,
  All, ◌==◌, get_or, arith, Bool-cases, Option-cases, inl, inr, eq_iff, eq_refl, one-concat, ◌<>◌,
}
use Prim.Native.Char.{nul}
use serenedb_operator.Prelude.Dict.{Dict, lookup}
use serenedb_operator.Prelude.Sort.{sort, str_less, any-sort}
use serenedb_operator.Prelude.Split.{lacks, split, split-append}
use serenedb_operator.Resources.Config.{digest_of_keys, digest_input}

-- No key that the map holds and no value has a NUL.
abbrev pub IsPlain : Dict String → Type 0
IsPlain m = (k v : String) → lookup k m ≡ some v → (lacks nul k ≡ true) × (lacks nul v ≡ true)

abbrev is_in : String → List String → Bool
is_in k ks = any (λ x. x == k) ks

abbrev is_held : {A : Type 0} → Option A → Bool
is_held none = false
is_held (some a) = true

abbrev read : Dict String → String → String
read m k = get_or "" (lookup k m)

-- What stands between the NULs.
abbrev fields : Dict String → List String → List String
fields m [] = "" ∷ []
fields m (k ∷ ks) = k ∷ read m k ∷ fields m ks

abbrev Plain : Dict String → String → Type 0
Plain m k = (lacks nul k ≡ true) × (lacks nul (read m k) ≡ true)

split-digest_of_keys :
    (m : Dict String) (ks : List String)
    → All (Plain m) ks
    → split nul (digest_of_keys m ks) ≡ fields m ks
unfolding digest_of_keys split
split-digest_of_keys m [] a = refl
split-digest_of_keys m (k ∷ ks) ((hk, hv), a) =
    let rest = digest_of_keys m ks in
    ap (split nul) (
      ap (λ s. k <> s)
        (one-concat nul (read m k <> String.◌∷◌ nul "" <> rest)
          ∙ ap (λ s. String.◌∷◌ nul (read m k <> s)) (one-concat nul rest)))
    ∙ split-append nul k (read m k <> String.◌∷◌ nul rest) hk
    ∙ ap (λ fs. k ∷ fs)
        (split-append nul (read m k) rest hv
          ∙ ap (λ fs. read m k ∷ fs) (split-digest_of_keys m ks a))

abbrev rest_of : List String → List String
rest_of [] = []
rest_of (x ∷ xs) = xs

abbrev first_of : List String → String
first_of [] = ""
first_of (x ∷ xs) = x

-- The fields tell the keys and what each map holds at them.
fields_inj :
    (m m' : Dict String) (ks ks' : List String)
    → fields m ks ≡ fields m' ks'
    → (ks ≡ ks') × All (λ k. read m k ≡ read m' k) ks
fields_inj m m' [] [] e = (refl, tt)
fields_inj m m' [] (k ∷ ks) e = absurd (ground (arith, ap rest_of e))
fields_inj m m' (k ∷ ks) [] e = absurd (ground (arith, ap rest_of e))
fields_inj m m' (k ∷ ks) (k' ∷ ks') e =
    let key : k ≡ k' = ap first_of e in
    let value : read m k ≡ read m' k' = ap (λ fs. first_of (rest_of fs)) e in
    let (keys, values) = fields_inj m m' ks ks' (ap (λ fs. rest_of (rest_of fs)) e) in
    (cc (key, keys), (value ∙ ap (read m') (sym key), values))

is_in-lookup : (k : String) (m : Dict String) → is_held (lookup k m) ≡ is_in k (map (λ e. e.0) m)
unfolding lookup
is_in-lookup k [] = refl
is_in-lookup k ((j, v) ∷ m) = ground (arith, is_in-lookup k m)

All-is_in :
    (P : String → Type 0) (k : String) (ks : List String) → All P ks → is_in k ks ≡ true → P k
All-is_in P k [] a h = absurd (ground arith)
All-is_in P k (x ∷ ks) (p, a) h = elim (Bool-cases (x == k)) [
  | inl e ↦ subst P ((eq_iff x k).0 e) p
  | inr e ↦ All-is_in P k ks a (ground arith)
]

All-of_in :
    (P : String → Type 0) (ks : List String) → ((k : String) → is_in k ks ≡ true → P k) → All P ks
All-of_in P [] f = tt
All-of_in P (x ∷ ks) f = (f x (ground (arith, eq_refl x)), All-of_in P ks λ k h. f k (ground arith))

abbrev keys_of : Dict String → List String
keys_of m = sort str_less (map (λ e. e.0) m)

-- A key stands among the sorted keys exactly if the map holds it.
is_in-keys_of : (k : String) (m : Dict String) → is_in k (keys_of m) ≡ is_held (lookup k m)
is_in-keys_of k m = any-sort str_less (λ x. x == k) (map (λ e. e.0) m) ∙ sym (is_in-lookup k m)

All-Plain : (m : Dict String) → IsPlain m → All (Plain m) (keys_of m)
All-Plain m plain = All-of_in (Plain m) (keys_of m) λ k h. elim (Option-cases (lookup k m)) [
  | inl e ↦ absurd (ground (arith, is_in-keys_of k m))
  | inr (v, e) ↦ rw e (plain k v e)
]

held_equal :
    (a b : Option String)
    → is_held a ≡ is_held b
    → (is_held a ≡ true → get_or "" a ≡ get_or "" b)
    → a ≡ b
held_equal none none h f = refl
held_equal none (some y) h f = absurd (ground arith)
held_equal (some x) none h f = absurd (ground arith)
held_equal (some x) (some y) h f = ap some (f refl)

-- Two maps without NULs whose digested texts are equal hold the same value at every key, so that no
-- change of a ConfigMap leaves the text that is hashed as it was.
pub digest_input_inj :
    (m m' : Dict String)
    → IsPlain m
    → IsPlain m'
    → digest_input m ≡ digest_input m'
    → (k : String) → lookup k m ≡ lookup k m'
unfolding digest_input
digest_input_inj m m' plain plain' e k =
    let read_back : fields m (keys_of m) ≡ fields m' (keys_of m') =
      sym (split-digest_of_keys m (keys_of m) (All-Plain m plain))
      ∙ ap (split nul) e
      ∙ split-digest_of_keys m' (keys_of m') (All-Plain m' plain') in
    let (keys, values) = fields_inj m m' (keys_of m) (keys_of m') read_back in
    held_equal (lookup k m) (lookup k m')
      (sym (is_in-keys_of k m) ∙ ap (is_in k) keys ∙ is_in-keys_of k m')
      λ h. All-is_in (λ j. read m j ≡ read m' j) k (keys_of m) values (is_in-keys_of k m ∙ h)
