-- ===== src/Statements/Secrets.antt =====
-- `CreateSecret` of internal/statements/statements.go: the options are given as a map, and the
-- statement does not depend on the order in which the map is iterated.
use serenedb_operator.Prelude.{
  ◌≡◌, refl, String, true, List, [], ◌∷◌, map, arith, All, ◌<>◌, Bool-cases, inl, inr, any, not,
}
use serenedb_operator.Prelude.Dict.{Dict, lookup}
use serenedb_operator.Prelude.Sort.{sort_of_perm}
use mathlib.Core.List.{Perm}
use serenedb_operator.Errors.{Err, ok, err, errorf, quoted}
use serenedb_operator.Statements.{create_secret, option_name, option_keys, option_parts}

abbrev pub keys_of : {V : Type 0} → Dict V → List String
keys_of m = map (λ e. e.0) m

option_keys_valid :
    (m : Dict String) → All (λ k. option_name k ≡ true) (keys_of m) → option_keys m ≡ ok (keys_of m)
unfolding option_keys
option_keys_valid [] a = refl
option_keys_valid ((k, v) ∷ m) (h, a) = ground (arith, option_keys_valid m a)

option_parts_of :
    (m m' : Dict String)
    → ((k : String) → lookup k m ≡ lookup k m')
    → (keys : List String) → option_parts m keys ≡ option_parts m' keys
unfolding option_parts
option_parts_of m m' same [] = refl
option_parts_of m m' same (k ∷ keys) = rw (same k, option_parts_of m m' same keys) refl

-- Two maps that hold the same options, with their keys met in any order, give one statement, where
-- every option has a valid name.
pub create_secret_of_perm :
    (sanitize : String → String) (name secret_type scope : String) (m m' : Dict String)
    → Perm (keys_of m) (keys_of m')
    → ((k : String) → lookup k m ≡ lookup k m')
    → All (λ k. option_name k ≡ true) (keys_of m)
    → All (λ k. option_name k ≡ true) (keys_of m')
    → create_secret sanitize name secret_type scope m
      ≡ create_secret sanitize name secret_type scope m'
unfolding create_secret
create_secret_of_perm sanitize name secret_type scope m m' p same valid valid' =
    rw
      (
        option_keys_valid m valid,
        option_keys_valid m' valid',
        sort_of_perm (keys_of m) (keys_of m') p,
        option_parts_of m m' same,
      )
      refl

option_keys_rejects :
    (m : Dict String)
    → any (λ k. not (option_name k)) (keys_of m) ≡ true
    → (e : Err) × (option_keys m ≡ err e)
unfolding option_keys
option_keys_rejects [] h = absurd (ground arith)
option_keys_rejects ((k, v) ∷ m) h = elim (Bool-cases (option_name k)) [
  | inl t ↦ let (e, p) = option_keys_rejects m (ground arith) in (e, rw (t, p) refl)
  | inr t ↦ (errorf ("option " <> quoted k <> " is not a valid option name"), rw t refl)
]

-- No statement is made of options of which one has a name that is not valid.
create_secret_rejects :
    (sanitize : String → String) (name secret_type scope : String) (m : Dict String)
    → any (λ k. not (option_name k)) (keys_of m) ≡ true
    → (e : Err) × (create_secret sanitize name secret_type scope m ≡ err e)
unfolding create_secret
create_secret_rejects sanitize name secret_type scope m h =
    let (e, p) = option_keys_rejects m h in (e, rw p refl)
