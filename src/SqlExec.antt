-- ===== src/SqlExec.antt =====
-- internal/sqlexec/session.go: the target of a connection, and the quoting of SQL texts.
pub mod Quoting
pub mod Connection
pub mod Fake
use Prim.Native.Char.{Char, code}
use serenedb_operator.Prelude.{
  ℕ, String, Bool, true, false, ◌||◌, ◌==ℕ◌, if◌then◌else◌, ◌<>◌, Option, some, ◌≡◌,
}
use serenedb_operator.Errors.{Result, ok, err, errorf}

-- One server to connect to as the superuser.
pub record Target : Type 0 where
  pub host : String
  pub port : ℕ
  pub user : String
  pub password : String
  pub tls : Bool

-- `strings.ContainsRune(value, 0)`
unfoldable pub has_nul : String → Bool
has_nul String.[] = false
has_nul (String.◌∷◌ c s) = code c ==ℕ 0 || has_nul s

-- `strings.ReplaceAll(value, q, qq)` for a text `q` of one character.
abbrev pub same_char : Char → Char → Bool
same_char c d = code c ==ℕ code d

-- The text does not begin with the character.
abbrev pub starts_without : Char → String → Bool
starts_without q String.[] = true
starts_without q (String.◌∷◌ c s) = if same_char c q then false else true

unfoldable pub double : Char → String → String
double q String.[] = ""
double q (String.◌∷◌ c s) =
    let rest = double q s in
    if same_char c q then String.◌∷◌ c (String.◌∷◌ c rest) else String.◌∷◌ c rest

-- Quotes a SQL string literal. NUL bytes are rejected.
unfoldable pub literal : String → Result String
unfolding has_nul double
literal value =
    if has_nul value
    then err (errorf "value contains a NUL byte")
    else ok ("'" <> double "'" value <> "'")

-- `Identifier` calls `pgx.Identifier{name}.Sanitize()`: a quoting of names that a reader of SQL
-- undoes, where the name holds no NUL and the text behind does not go on with a double quote.
-- A client takes the function as an argument, and these facts as a hypothesis.
pub record IsSanitizer (sanitize : String → String) : Type 0 where
  pub read_identifier : String → Option (String × String)
  pub read_back :
      (name rest : String)
      → has_nul name ≡ false
      → starts_without "\"" rest ≡ true
      → read_identifier (sanitize name <> rest) ≡ some (name, rest)
