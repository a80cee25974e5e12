-- ===== src/Errors.antt =====
-- Go errors as values: the texts that `fmt.Errorf` makes, the errors of the Kubernetes API by the
-- reasons that the code asks for, and the unmet preconditions of
-- internal/controller/serenedb_controller.go, which are errors too.
use serenedb_operator.Prelude.{
  ℕ, ◌%◌, ◌≡◌, refl, ◌⊎◌, inl, inr, String, Bool, true, false, ltb, ◌==ℕ◌, if◌then◌else◌, ◌<>◌,
}
use Prim.Native.String.{char_at}
use Prim.Native.Char.{Char, code}

-- `%q` of a text, exact on ASCII and on printable characters.
hex_digit : ℕ → String
hex_digit n = String.◌∷◌ (char_at "0123456789abcdef" n) ""

escape_char : Char → String
unfolding hex_digit
escape_char c =
    let n = code c in
    if n ==ℕ b'"'
    then "\\\""
    else if n ==ℕ b'\\'
    then "\\\\"
    else if n ==ℕ 7
    then "\\a"
    else if n ==ℕ 8
    then "\\b"
    else if n ==ℕ 12
    then "\\f"
    else if n ==ℕ 10
    then "\\n"
    else if n ==ℕ 13
    then "\\r"
    else if n ==ℕ 9
    then "\\t"
    else if n ==ℕ 11
    then "\\v"
    else if ltb n 32
    then "\\x" <> (if ltb n 16 then "0" else "1") <> hex_digit (n % 16)
    else if n ==ℕ 127
    then "\\x7f"
    else String.◌∷◌ c ""

escape : String → String
unfolding escape_char
escape String.[] = ""
escape (String.◌∷◌ c s) = escape_char c <> escape s

unfoldable pub quoted : String → String
unfolding escape
quoted s = "\"" <> escape s <> "\""

-- The reasons of API errors that the code tells apart.
pub data Reason : Type 0 where
  not_found already_exists no_match other : Reason

-- What the user must fix before an object can be applied.
pub record Blocked : Type 0 where
  pub reason : String
  pub message : String

pub data Err : Type 0 where
  errorf : String → Err
  api : Reason → String → Err
  precondition : Blocked → Err
  wrapped : String → Err → Err

-- `err.Error()`
unfoldable pub error_message : Err → String
error_message (errorf s) = s
error_message (api r s) = s
error_message (precondition b) = b.message
error_message (wrapped s e) = s <> ": " <> error_message e

-- `apierrors.IsNotFound`, `apierrors.IsAlreadyExists` and `meta.IsNoMatchError`; the first two are
-- documented to see through wrapped errors.
abbrev pub is_not_found : Err → Bool
is_not_found (api not_found s) = true
is_not_found (wrapped s e) = is_not_found e
is_not_found _ = false

abbrev pub is_already_exists : Err → Bool
is_already_exists (api already_exists s) = true
is_already_exists (wrapped s e) = is_already_exists e
is_already_exists _ = false

abbrev pub is_no_kind_match : Err → Bool
is_no_kind_match (api no_match s) = true
is_no_kind_match _ = false

-- A Go result `(value, error)`.
pub data Result {ℓ} (A : Type ℓ) : Type ℓ where
  ok : A → Result A
  err : Err → Result A

-- To split on a computed result and keep the equation.
pub Result-cases {ℓ} :
    {A : Type ℓ} (r : Result A) → ((a : A) × (r ≡ ok a)) ⊎ ((e : Err) × (r ≡ err e))
Result-cases (ok a) = inl (a, refl)
Result-cases (err e) = inr (e, refl)

infixl 5 ◌>>=◌
abbrev pub ◌>>=◌ {ℓ κ} : {A : Type ℓ} {B : Type κ} → Result A → (A → Result B) → Result B
ok a >>= f = f a
err e >>= f = err e

quoted_example : quoted "a\"b" ≡ "\"a\\\"b\""
unfolding quoted
quoted_example = refl
