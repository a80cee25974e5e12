-- ===== src/SqlExec/Quoting.antt =====
-- Quoted SQL texts (internal/sqlexec/session.go) read back by the rule of SQL: a doubled quote stands
-- for a quote, and any other quote ends the text.
use Prim.Native.Char.{Char}
use serenedb_operator.Prelude.{
  String, Bool, true, false, Option, none, some, ◌≡◌, refl, inl, inr, arith, Bool-cases,
  if◌then◌else◌, ◌<>◌, nil-concat, cons-concat, one-concat, concat_assoc,
}
use serenedb_operator.Errors.{ok, err, errorf}
use serenedb_operator.SqlExec.{same_char, has_nul, double, literal, starts_without, IsSanitizer}

abbrev pub prepend : Char → Option (String × String) → Option (String × String)
prepend c none = none
prepend c (some (v, rest)) = some (String.◌∷◌ c v, rest)

-- Inside a quoted text; the flag says that the character before was a quote whose meaning is open.
-- The result is the value and the unread text.
unfoldable pub read_body : Char → Bool → String → Option (String × String)
read_body q false String.[] = none
read_body q true String.[] = some ("", "")
read_body q false (String.◌∷◌ c s) = elim (same_char c q) [
  | true ↦ read_body q true s
  | false ↦ prepend c (read_body q false s)
]
read_body q true (String.◌∷◌ c s) = elim (same_char c q) [
  | true ↦ prepend c (read_body q false s)
  | false ↦ some ("", String.◌∷◌ c s)
]

unfoldable pub read_quoted : Char → String → Option (String × String)
unfolding read_body
read_quoted q String.[] = none
read_quoted q (String.◌∷◌ c s) = if same_char c q then read_body q false s else none

read_end :
    (q : Char) (rest : String)
    → starts_without q rest ≡ true
    → read_body q true rest ≡ some ("", rest)
unfolding read_body
read_end q String.[] h = refl
read_end q (String.◌∷◌ c s) h = ground arith

read-double :
    (q : Char) (v rest : String)
    → starts_without q rest ≡ true
    → read_body q false (double q v <> String.◌∷◌ q rest) ≡ some (v, rest)
unfolding read_body double
read-double q String.[] rest h = rw nil-concat (ground (arith, read_end q rest h))
read-double q (String.◌∷◌ c v) rest h = elim (Bool-cases (same_char c q)) [
  | inl quote ↦ rw quote (simp cons-concat (ground (arith, read-double q v rest h)))
  | inr plain ↦ rw plain (simp cons-concat (ground (arith, read-double q v rest h)))
]

quote_both_lem :
    (q : Char) (v rest : String)
    → (String.◌∷◌ q "" <> double q v <> String.◌∷◌ q "") <> rest
      ≡ String.◌∷◌ q (double q v <> String.◌∷◌ q rest)
quote_both_lem q v rest =
    rw (one-concat q (double q v <> String.◌∷◌ q ""), cons-concat q _ rest)
      (rw (concat_assoc (double q v) (String.◌∷◌ q "") rest, one-concat q rest))

pub read_quoted-double :
    (q : Char) (v rest : String)
    → starts_without q rest ≡ true
    → read_quoted q ((String.◌∷◌ q "" <> double q v <> String.◌∷◌ q "") <> rest) ≡ some (v, rest)
unfolding read_quoted
read_quoted-double q v rest h =
    rw (quote_both_lem q v rest) (ground (arith, read-double q v rest h))

-- A literal is read back as the value that it was made from, whatever the value holds, and what
-- follows it is left alone, where that does not begin with a single quote.
pub read_quoted-literal :
    (v rest : String) {l : String}
    → starts_without "'" rest ≡ true
    → literal v ≡ ok l
    → read_quoted "'" (l <> rest) ≡ some (v, rest)
unfolding literal
read_quoted-literal v rest h e = ground (arith, read_quoted-double "'" v rest h)

-- A literal is made exactly where the value holds no NUL byte.
pub literal_total :
    (v : String)
    → (has_nul v ≡ false → (l : String) × (literal v ≡ ok l))
      × (has_nul v ≡ true → literal v ≡ err (errorf "value contains a NUL byte"))
unfolding literal
literal_total v = ((λ h. ("'" <> double "'" v <> "'", ground arith)), λ h. ground arith)

-- A sanitizer of the documented form: double quotes round the name, with those inside doubled.
abbrev pub double_quoted : String → String
double_quoted name = "\"" <> double "\"" name <> "\""

pub double_quoted-IsSanitizer : IsSanitizer double_quoted
double_quoted-IsSanitizer = record {
  read_identifier = read_quoted "\"";
  read_back = λ name rest _ h. read_quoted-double "\"" name rest h;
}
