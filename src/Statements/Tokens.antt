-- ===== src/Statements/Tokens.antt =====
-- internal/statements/statements.go: SQL texts read as words and literals between blanks, where a quote
-- opens a literal that ends at the next quote which is not doubled.
pub mod Parts
use mathlib.Core.Path.{subst}
use serenedb_operator.Prelude.{
  append_assoc, ◌≡◌, refl, ap, sym, ◌∙◌, String, Bool, true, false, not, ◌&&◌, ◌==ℕ◌, List, [], ◌∷◌,
  ◌++◌, if◌then◌else◌, ◌<>◌, nil-concat, cons-concat, one-concat, concat_assoc, join, arith, each,
  Bool-cases, inl, inr,
}
use Prim.Native.Char.{Char, code}
use serenedb_operator.Prelude.Decimal.{has_character}
use serenedb_operator.Errors.{Result, ok, err}
use serenedb_operator.SqlExec.{same_char, literal, double, has_nul}

pub data Token : Type 0 where
  word : String → Token
  text : String → Token
  junk : Token

abbrev into_first : Char → List Token → List Token
into_first c (word w ∷ ts) = word (String.◌∷◌ c w) ∷ ts
into_first c (text w ∷ ts) = text (String.◌∷◌ c w) ∷ ts
into_first c ts = junk ∷ ts

-- Where the reader stands: between tokens, in a word, in a literal, or behind a quote in a literal.
pub data Mode : Type 0 where
  gap in_word in_text at_quote : Mode

abbrev pub is_blank : Char → Bool
is_blank c = code c ==ℕ b' '

abbrev pub is_quote : Char → Bool
is_quote c = code c ==ℕ b'\''

unfoldable pub scan : Mode → String → List Token
scan gap String.[] = []
scan in_word String.[] = word "" ∷ []
scan in_text String.[] = junk ∷ []
scan at_quote String.[] = text "" ∷ []
scan gap (String.◌∷◌ c s) =
    if is_blank c
    then scan gap s
    else if is_quote c
    then scan in_text s
    else into_first c (scan in_word s)
scan in_word (String.◌∷◌ c s) =
    if is_blank c then word "" ∷ scan gap s else into_first c (scan in_word s)
scan in_text (String.◌∷◌ c s) =
    if is_quote c then scan at_quote s else into_first c (scan in_text s)
scan at_quote (String.◌∷◌ c s) =
    if is_quote c
    then into_first c (scan in_text s)
    else if is_blank c
    then text "" ∷ scan gap s
    else text "" ∷ junk ∷ []

abbrev pub tokens : String → List Token
tokens s = scan gap s

-- A word has a character, no blank and no quote.
abbrev pub is_word : String → Bool
is_word w = has_character w && each (λ c. not (is_blank c) && not (is_quote c)) w

-- A text that is read as these tokens, at the end and before a blank.
abbrev pub Reads : String → List Token → Type 0
Reads p ts =
    (tokens p ≡ ts) × ((rest : String) → tokens (p <> String.◌∷◌ " " rest) ≡ ts ++ tokens rest)

in_word_end :
    (w : String)
    → each (λ c. not (is_blank c) && not (is_quote c)) w ≡ true
    → (scan in_word w ≡ word w ∷ [])
      × ((rest : String) → scan in_word (w <> String.◌∷◌ " " rest) ≡ word w ∷ tokens rest)
unfolding scan
in_word_end String.[] h = (refl, λ rest. rw (nil-concat (String.◌∷◌ " " rest)) refl)
in_word_end (String.◌∷◌ c w) h =
    let (a, b) = in_word_end w (ground arith) in
    (ground arith, λ rest. rw (cons-concat c w (String.◌∷◌ " " rest)) (ground (arith, b rest)))

pub is_word-Reads : (w : String) → is_word w ≡ true → Reads w (word w ∷ [])
unfolding scan
is_word-Reads String.[] h = absurd (ground arith)
is_word-Reads (String.◌∷◌ c w) h =
    let (a, b) = in_word_end w (ground arith) in
    (ground arith, λ rest. rw (cons-concat c w (String.◌∷◌ " " rest)) (ground (arith, b rest)))

in_text_doubled :
    (c : Char) (d z : String)
    → same_char c "'" ≡ true
    → scan in_text (String.◌∷◌ c (String.◌∷◌ c d) <> z) ≡ into_first c (scan in_text (d <> z))
unfolding scan
in_text_doubled c d z q = rw (cons-concat c (String.◌∷◌ c d) z, cons-concat c d z) (ground arith)

in_text_plain :
    (c : Char) (d z : String)
    → same_char c "'" ≡ false
    → scan in_text (String.◌∷◌ c d <> z) ≡ into_first c (scan in_text (d <> z))
unfolding scan
in_text_plain c d z q = rw (cons-concat c d z) (ground arith)

scan-double :
    (c : Char) (v z : String)
    → scan in_text (double "'" (String.◌∷◌ c v) <> z)
      ≡ into_first c (scan in_text (double "'" v <> z))
unfolding double
scan-double c v z = elim (Bool-cases (same_char c "'")) [
  | inl q ↦ rw q (in_text_doubled c (double "'" v) z q)
  | inr q ↦ rw q (in_text_plain c (double "'" v) z q)
]

in_text_end :
    (v : String)
    → (scan in_text (double "'" v <> "'") ≡ text v ∷ [])
      × ((rest : String)
          → scan in_text (double "'" v <> String.◌∷◌ "'" (String.◌∷◌ " " rest))
            ≡ text v ∷ tokens rest)
unfolding scan double
in_text_end String.[] = (refl, λ rest. rw (nil-concat (String.◌∷◌ "'" (String.◌∷◌ " " rest))) refl)
in_text_end (String.◌∷◌ c v) =
    let (a, b) = in_text_end v in
    (
      scan-double c v "'" ∙ ap (into_first c) a,
      λ rest. scan-double c v (String.◌∷◌ "'" (String.◌∷◌ " " rest)) ∙ ap (into_first c) (b rest),
    )

quote_before :
    (d rest : String) → ("'" <> d <> "'") <> rest ≡ String.◌∷◌ "'" (d <> String.◌∷◌ "'" rest)
quote_before d rest =
    rw
      (
        one-concat "'" (d <> "'"),
        cons-concat "'" (d <> "'") rest,
        concat_assoc d "'" rest,
        one-concat "'" rest,
      )
      refl

quoted-Reads : (v : String) → Reads ("'" <> double "'" v <> "'") (text v ∷ [])
unfolding scan
quoted-Reads v =
    let (a, b) = in_text_end v in
    (
      ap tokens (one-concat "'" (double "'" v <> "'")) ∙ a,
      λ rest. ap tokens (quote_before (double "'" v) (String.◌∷◌ " " rest)) ∙ b rest,
    )

-- A literal is one token, whatever it holds.
pub literal-Reads : (v : String) {l : String} → literal v ≡ ok l → Reads l (text v ∷ [])
unfolding literal
literal-Reads v {l} e =
    let same : "'" <> double "'" v <> "'" ≡ l = ground arith in
    subst (λ x. Reads x (text v ∷ [])) same (quoted-Reads v)

-- Texts with a blank between them are read one after the other.
pub blank-Reads :
    (p q : String) (ts us : List Token) → Reads p ts → Reads q us → Reads (p <> " " <> q) (ts ++ us)
blank-Reads p q ts us (a, b) (c, d) = (
  ap (λ s. tokens (p <> s)) (one-concat " " q) ∙ b q ∙ ap (λ vs. ts ++ vs) c,
  λ rest.
      ap tokens (
        concat_assoc p (" " <> q) (String.◌∷◌ " " rest)
        ∙ ap (λ s. p <> s)
            (concat_assoc " " q (String.◌∷◌ " " rest) ∙ one-concat " " (q <> String.◌∷◌ " " rest)))
      ∙ b (q <> String.◌∷◌ " " rest)
      ∙ ap (λ vs. ts ++ vs) (d rest)
      ∙ sym (append_assoc ts us (tokens rest)),
)
