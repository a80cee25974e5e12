-- ===== src/Statements/Attributes.antt =====
-- The attributes of a role in internal/statements/statements.go, each read back as its tokens.
use serenedb_operator.Statements.Tokens.Parts.{two_words-Reads, PartRead}
use mathlib.Core.Path.{subst}
use serenedb_operator.Prelude.{
  ◌&&◌, suc, not, ℕ, one-concat, ◌≡◌, refl, sym, String, Bool, true, false, Option, none, some,
  List, [], ◌∷◌, if◌then◌else◌, ◌<>◌, ◌==◌, concat_assoc, arith, Bool-cases, inl, inr,
}
use serenedb_operator.Prelude.Int.{ℤ, pos, negsuc}
use serenedb_operator.Prelude.Decimal.{decimal, decimal_ℤ, each-decimal, has_character-decimal}
use serenedb_operator.Errors.{ok, Result-cases}
use serenedb_operator.SqlExec.{literal}
use serenedb_operator.Statements.{flag, limit_part, valid_part, password_part}
use serenedb_operator.Statements.Tokens.{
  is_quote, is_blank, Token, word, text, Reads, is_word, is_word-Reads, literal-Reads, blank-Reads,
}

-- The tokens that the attributes ask for.
abbrev pub flag_tokens : Bool → (set unset : String) → List Token
flag_tokens on set unset = word (if on then set else unset) ∷ []

abbrev pub limit_tokens : Option ℤ → List Token
limit_tokens none = []
limit_tokens (some n) = word "CONNECTION" ∷ word "LIMIT" ∷ word (decimal_ℤ n) ∷ []

abbrev pub valid_tokens : String → List Token
valid_tokens until = if until == "" then [] else word "VALID" ∷ word "UNTIL" ∷ text until ∷ []

abbrev pub password_tokens : Option String → List Token
password_tokens none = []
password_tokens (some p) = word "PASSWORD" ∷ text p ∷ []

pub flag-Reads :
    (on : Bool) (w : String)
    → is_word w ≡ true
    → is_word ("NO" <> w) ≡ true
    → Reads (flag on w) (word (if on then w else "NO" <> w) ∷ [])
unfolding flag
flag-Reads true w h k = is_word-Reads w h
flag-Reads false w h k = is_word-Reads ("NO" <> w) k

decimal-is_word : (n : ℕ) → is_word (decimal n) ≡ true
decimal-is_word n = ground (
  arith,
  has_character-decimal n,
  each-decimal (λ c. not (is_blank c) && not (is_quote c)) (λ c lo hi. ground arith) n,
)

decimal_ℤ-is_word : (n : ℤ) → is_word (decimal_ℤ n) ≡ true
unfolding decimal_ℤ
decimal_ℤ-is_word (pos n) = decimal-is_word n
decimal_ℤ-is_word (negsuc n) =
    rw (one-concat "-" (decimal (suc n)))
      (each-decimal (λ c. not (is_blank c) && not (is_quote c)) (λ c lo hi. ground arith) (suc n))

pub limit-PartRead : (n : Option ℤ) → PartRead (limit_part n) (limit_tokens n)
unfolding limit_part
limit-PartRead none = ([], tt, refl)
limit-PartRead (some n) = (
  limit_tokens (some n) ∷ [],
  (
    two_words-Reads "CONNECTION" "LIMIT" (decimal_ℤ n) (word (decimal_ℤ n) ∷ []) refl refl
        (is_word-Reads (decimal_ℤ n) (decimal_ℤ-is_word n)),
    tt,
  ),
  refl,
)

pub valid-PartRead :
    (until : String) (ps : List String)
    → valid_part until ≡ ok ps
    → PartRead ps (valid_tokens until)
unfolding valid_part
valid-PartRead until ps e = elim (Bool-cases (until == "")) [
  | inl q ↦
      let none_left : List.[] ≡ ps = ground arith in
      rw q (subst (λ x. PartRead x []) none_left ([], tt, refl))
  | inr q ↦ elim (Result-cases (literal until)) [
    | inr (x, l) ↦ absurd (ground arith)
    | inl (lit, l) ↦
        let own : ("VALID UNTIL " <> lit) ∷ [] ≡ ps = ground arith in
        rw q (
          subst (λ x. PartRead x (word "VALID" ∷ word "UNTIL" ∷ text until ∷ [])) own
            (
              (word "VALID" ∷ word "UNTIL" ∷ text until ∷ []) ∷ [],
              (
                two_words-Reads "VALID" "UNTIL" lit (text until ∷ []) refl refl
                    (literal-Reads until l),
                tt,
              ),
              refl,
            ))
  ]
]

pub password-PartRead :
    (p : Option String) (ps : List String)
    → password_part p ≡ ok ps
    → PartRead ps (password_tokens p)
unfolding password_part
password-PartRead none ps e =
    let none_left : List.[] ≡ ps = ground arith in
    subst (λ x. PartRead x []) none_left ([], tt, refl)
password-PartRead (some p) ps e = elim (Result-cases (literal p)) [
  | inr (x, l) ↦ absurd (ground arith)
  | inl (lit, l) ↦
      let own : ("PASSWORD " <> lit) ∷ [] ≡ ps = ground arith in
      subst (λ x. PartRead x (password_tokens (some p))) own
        (
          password_tokens (some p) ∷ [],
          (
            subst (λ s. Reads s (password_tokens (some p))) (sym (concat_assoc "PASSWORD" " " lit))
                (blank-Reads "PASSWORD" lit (word "PASSWORD" ∷ []) (text p ∷ [])
                  (is_word-Reads "PASSWORD" refl) (literal-Reads p l)),
            tt,
          ),
          refl,
        )
]
