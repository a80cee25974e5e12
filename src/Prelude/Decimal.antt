-- ===== src/Prelude/Decimal.antt =====
-- `%d`: the decimal print of a number, with the number read back from it.
use Prim.Native.Nat.{ℕ, zero, suc, ◌+◌, ◌-◌, ◌*◌, ◌/◌, ◌%◌, ◌<◌, ◌≤◌}
use Prim.Native.Char.{Char, code}
use Prim.Native.String.{String}
use mathlib.Core.Path.{◌≡◌, refl, sym, ap, ◌∙◌}
use mathlib.Core.Bool.{Bool, false, true}
use mathlib.Core.Logic.{inl, inr}
use native.Mathlib.Omega.{arith}
use serenedb_operator.Prelude.Tests.{◌==ℕ◌, if◌then◌else◌, Bool-cases}
use serenedb_operator.Prelude.Texts.{◌<>◌, each}
use serenedb_operator.Prelude.Int.{ℤ, pos, negsuc}

digit : ℕ → Char
digit zero = "0"
digit (suc zero) = "1"
digit (suc (suc zero)) = "2"
digit (suc (suc (suc zero))) = "3"
digit (suc (suc (suc (suc zero)))) = "4"
digit (suc (suc (suc (suc (suc zero))))) = "5"
digit (suc (suc (suc (suc (suc (suc zero)))))) = "6"
digit (suc (suc (suc (suc (suc (suc (suc zero))))))) = "7"
digit (suc (suc (suc (suc (suc (suc (suc (suc zero)))))))) = "8"
digit n = "9"

-- Each round writes the last digit; `n + 1` rounds are enough, since `n / 10` is smaller than `n`.
digits : ℕ → ℕ → String → String
unfolding digit
digits zero n acc = acc
digits (suc fuel) n acc =
    let last = String.◌∷◌ (digit (n % 10)) acc in
    let rest = digits fuel (n / 10) last in if n / 10 ==ℕ 0 then last else rest

unfoldable pub decimal : ℕ → String
unfolding digits
decimal n = digits (suc n) n ""

unfoldable pub decimal_ℤ : ℤ → String
unfolding decimal
decimal_ℤ (pos n) = decimal n
decimal_ℤ (negsuc n) = "-" <> decimal (suc n)

-- The number that digits spell behind `n`.
unfoldable pub value : ℕ → String → ℕ
value n String.[] = n
value n (String.◌∷◌ c s) = value (n * 10 + (code c - b'0')) s

code-digit : (d : ℕ) → d < 10 → code (digit d) ≡ b'0' + d
unfolding digit
code-digit zero h = refl
code-digit (suc zero) h = refl
code-digit (suc (suc zero)) h = refl
code-digit (suc (suc (suc zero))) h = refl
code-digit (suc (suc (suc (suc zero)))) h = refl
code-digit (suc (suc (suc (suc (suc zero))))) h = refl
code-digit (suc (suc (suc (suc (suc (suc zero)))))) h = refl
code-digit (suc (suc (suc (suc (suc (suc (suc zero))))))) h = refl
code-digit (suc (suc (suc (suc (suc (suc (suc (suc zero)))))))) h = refl
code-digit (suc (suc (suc (suc (suc (suc (suc (suc (suc n))))))))) h =
    let e : n ≡ 0 = omega arith in rw e

value_step : (n : ℕ) (acc : String) → value (n / 10) (String.◌∷◌ (digit (n % 10)) acc) ≡ value n acc
unfolding value
value_step n acc =
    let e : n / 10 * 10 + (code (digit (n % 10)) - b'0') ≡ n =
      omega (arith, code-digit (n % 10) (omega arith)) in
    ap (λ k. value k acc) e

value-digits : (fuel n : ℕ) (acc : String) → n < fuel → value 0 (digits fuel n acc) ≡ value n acc
unfolding digits
value-digits zero n acc h = elim h [ ]
value-digits (suc fuel) n acc h = elim (Bool-cases (n / 10 ==ℕ 0)) [
  | inl done ↦ rw done (
      let e : n / 10 ≡ 0 = ground arith in
      ap (λ k. value k (String.◌∷◌ (digit (n % 10)) acc)) (sym e) ∙ value_step n acc)
  | inr more ↦ rw more (
      value-digits fuel (n / 10) (String.◌∷◌ (digit (n % 10)) acc) (ground arith)
      ∙ value_step n acc)
]

-- The print spells the number.
pub value-decimal : (n : ℕ) → value 0 (decimal n) ≡ n
unfolding decimal value
value-decimal n = value-digits (suc n) n "" (omega arith)

each-digits :
    (p : Char → Bool)
    → ((d : ℕ) → d < 10 → p (digit d) ≡ true)
    → (fuel n : ℕ) (acc : String) → each p acc ≡ true
    → each p (digits fuel n acc) ≡ true
unfolding digits
each-digits p h zero n acc a = a
each-digits p h (suc fuel) n acc a = ground (
  arith,
  h (n % 10) (omega arith),
  each-digits p h fuel (n / 10) (String.◌∷◌ (digit (n % 10)) acc),
)

-- A print has characters from `0` to `9` only.
pub each-decimal :
    (p : Char → Bool)
    → ((c : Char) → b'0' ≤ code c → code c ≤ b'9' → p c ≡ true)
    → (n : ℕ) → each p (decimal n) ≡ true
unfolding decimal
each-decimal p h n =
    each-digits p
      (λ d l. h (digit d) (omega (arith, l, code-digit d l)) (omega (arith, l, code-digit d l)))
      (suc n) n "" refl

-- The text has a character.
abbrev pub has_character : String → Bool
has_character String.[] = false
has_character (String.◌∷◌ c s) = true

has_character-digits :
    (fuel n : ℕ) (acc : String)
    → has_character acc ≡ true
    → has_character (digits fuel n acc) ≡ true
unfolding digits
has_character-digits zero n acc h = h
has_character-digits (suc fuel) n acc h =
    ground (arith, has_character-digits fuel (n / 10) (String.◌∷◌ (digit (n % 10)) acc) refl)

pub has_character-decimal : (n : ℕ) → has_character (decimal n) ≡ true
unfolding decimal digits
has_character-decimal n =
    ground (arith, has_character-digits n (n / 10) (String.◌∷◌ (digit (n % 10)) "") refl)

decimal_example : decimal 65535 ≡ "65535"
unfolding decimal
decimal_example = refl

decimal_ℤ_example : decimal_ℤ (negsuc 0) ≡ "-1"
unfolding decimal_ℤ
decimal_ℤ_example = refl
