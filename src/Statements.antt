-- ===== src/Statements.antt =====
-- internal/statements/statements.go: the SQL that the operator runs.
pub mod Secrets
pub mod Distinct
pub mod Tokens
pub mod Attributes
pub mod Roles
use Prim.Native.Char.{Char, code}
use serenedb_operator.Prelude.{
  ℕ, String, Bool, true, false, ◌||◌, ◌&&◌, Option, none, some, List, [], ◌∷◌, ◌++◌, map, ◌≡◌, refl,
  leb, ◌==ℕ◌, ◌==◌, if◌then◌else◌, ◌<>◌, join, get_or,
}
use serenedb_operator.Prelude.Dict.{Dict, lookup}
use serenedb_operator.Prelude.Int.{ℤ, pos}
use serenedb_operator.Prelude.Decimal.{decimal_ℤ}
use serenedb_operator.Prelude.Sort.{sort, str_less}
use serenedb_operator.Errors.{Result, ok, err, errorf, quoted, ◌>>=◌}
use serenedb_operator.SqlExec.{literal}
use serenedb_operator.SqlExec.Quoting.{double_quoted}

-- `[A-Za-z_]` and `[A-Za-z0-9_]`
abbrev is_letter : Char → Bool
is_letter c =
    leb b'A' (code c) && leb (code c) b'Z'
    || leb b'a' (code c) && leb (code c) b'z'
    || code c ==ℕ b'_'

abbrev is_word : Char → Bool
is_word c = is_letter c || leb b'0' (code c) && leb (code c) b'9'

all_word : String → Bool
all_word String.[] = true
all_word (String.◌∷◌ c s) = is_word c && all_word s

-- `optionName.MatchString`
unfoldable pub option_name : String → Bool
unfolding all_word
option_name String.[] = false
option_name (String.◌∷◌ c s) = is_letter c && all_word s

unfoldable pub database_exists : String → Result String
database_exists name = do
  lit ← literal name
  ok ("SELECT 1 FROM pg_database WHERE datname = " <> lit)

pub role_exists : String → Result String
role_exists name = do lit ← literal name; ok ("SELECT 1 FROM pg_roles WHERE rolname = " <> lit)

pub secret_exists : String → Result String
secret_exists name = do lit ← literal name; ok ("SELECT 1 FROM sdb_secrets() WHERE name = " <> lit)

unfoldable pub role_memberships : String → Result String
role_memberships name = do
  lit ← literal name
  ok (
      "SELECT r.rolname FROM pg_auth_members am JOIN pg_roles r ON r.oid = am.roleid "
      <> "JOIN pg_roles m ON m.oid = am.member WHERE m.rolname = " <> lit <> " ORDER BY 1")

-- The server-level attributes of a role.
pub record RoleAttributes : Type 0 where
  pub login : Bool
  pub superuser : Bool
  pub create_db : Bool
  pub create_role : Bool
  pub inherit : Bool
  pub connection_limit : Option ℤ
  pub valid_until : String
  pub password : Option String

unfoldable pub flag : Bool → String → String
flag on word = if on then word else "NO" <> word

unfoldable pub limit_part : Option ℤ → List String
limit_part none = []
limit_part (some n) = ("CONNECTION LIMIT " <> decimal_ℤ n) ∷ []

unfoldable pub valid_part : String → Result (List String)
valid_part until =
    if until == "" then ok [] else do lit ← literal until; ok (("VALID UNTIL " <> lit) ∷ [])

unfoldable pub password_part : Option String → Result (List String)
password_part none = ok []
password_part (some p) = do lit ← literal p; ok (("PASSWORD " <> lit) ∷ [])

unfoldable pub render : RoleAttributes → Result String
unfolding flag limit_part valid_part password_part
render a = do
  valid ← valid_part a.valid_until
  password ← password_part a.password
  ok (
      join
        (flag a.login "LOGIN"
          ∷ flag a.superuser "SUPERUSER"
          ∷ flag a.create_db "CREATEDB"
          ∷ flag a.create_role "CREATEROLE"
          ∷ flag a.inherit "INHERIT"
          ∷ (limit_part a.connection_limit ++ (valid ++ password)))
        " ")

-- The letter of the second text that stands where the character stands in the first.
translate : Char → String → String → Char
translate c String.[] to = c
translate c from String.[] = c
translate c (String.◌∷◌ d from) (String.◌∷◌ e to) =
    let rest = translate c from to in if code c ==ℕ code d then e else rest

-- `strings.ToUpper` on option names, which are ASCII.
upper_char : Char → Char
unfolding translate
upper_char c = translate c "abcdefghijklmnopqrstuvwxyz" "ABCDEFGHIJKLMNOPQRSTUVWXYZ"

to_upper : String → String
unfolding upper_char
to_upper String.[] = ""
to_upper (String.◌∷◌ c s) = String.◌∷◌ (upper_char c) (to_upper s)

-- The loop that collects the keys, in the order in which the map is iterated.
option_keys : Dict String → Result (List String)
option_keys [] = ok []
option_keys ((k, v) ∷ options) =
    if option_name k
    then (do keys ← option_keys options; ok (k ∷ keys))
    else err (errorf ("option " <> quoted k <> " is not a valid option name"))

scope_part : String → Result (List String)
scope_part scope =
    if scope == "" then ok [] else do lit ← literal scope; ok (("SCOPE " <> lit) ∷ [])

-- A missing key reads as the empty text, as in Go; the keys are those of the map.
option_parts : Dict String → List String → Result (List String)
unfolding to_upper
option_parts options [] = ok []
option_parts options (k ∷ keys) = do
  lit ← literal (get_or "" (lookup k options))
  parts ← option_parts options keys
  ok ((to_upper k <> " " <> lit) ∷ parts)

-- `sanitize` is `pgx.Identifier{name}.Sanitize()`, which `sqlexec.Identifier` returns.
module _ (sanitize : String → String) where
  unfoldable pub identifier : String → String
  identifier name = sanitize name

  unfoldable pub create_database : String → String
  unfolding identifier
  create_database name = "CREATE DATABASE IF NOT EXISTS " <> identifier name

  unfoldable pub drop_database : String → String
  unfolding identifier
  drop_database name = "DROP DATABASE " <> identifier name

  unfoldable pub create_role : String → RoleAttributes → Result String
  unfolding render identifier
  create_role name attrs = do
    rendered ← render attrs
    ok ("CREATE ROLE " <> identifier name <> " " <> rendered)

  unfoldable pub alter_role : String → RoleAttributes → Result String
  unfolding render identifier
  alter_role name attrs = do
    rendered ← render attrs
    ok ("ALTER ROLE " <> identifier name <> " " <> rendered)

  pub drop_role : String → String
  unfolding identifier
  drop_role name = "DROP ROLE " <> identifier name

  pub grant_membership : (group member : String) → String
  unfolding identifier
  grant_membership group member = "GRANT " <> identifier group <> " TO " <> identifier member

  pub revoke_membership : (group member : String) → String
  unfolding identifier
  revoke_membership group member = "REVOKE " <> identifier group <> " FROM " <> identifier member

  -- Creates or replaces a persistent server secret, with the options in sorted key order.
  unfoldable pub create_secret : (name secret_type scope : String) → Dict String → Result String
  unfolding identifier option_keys scope_part option_parts
  create_secret name secret_type scope options = do
    keys ← option_keys options
    scoped ← scope_part scope
    parts ← option_parts options (sort str_less keys)
    ok (
        "CREATE OR REPLACE PERSISTENT SECRET "
        <> identifier name
        <> " ("
        <> join (("TYPE " <> secret_type) ∷ (scoped ++ parts)) ", "
        <> ")")

  pub drop_secret : String → String
  unfolding identifier
  drop_secret name = "DROP SECRET " <> identifier name

-- The cases of internal/statements/statements_test.go.
exists_test : database_exists "it's" ≡ ok "SELECT 1 FROM pg_database WHERE datname = 'it''s'"
unfolding database_exists literal
exists_test = refl

create_role_test :
    create_role double_quoted "app" (record {
      login = true;
      superuser = false;
      create_db = false;
      create_role = false;
      inherit = true;
      connection_limit = some (pos 5);
      valid_until = "2030-01-01";
      password = some "p'w";
    })
    ≡ ok
        "CREATE ROLE \"app\" LOGIN NOSUPERUSER NOCREATEDB NOCREATEROLE INHERIT CONNECTION LIMIT 5 VALID UNTIL '2030-01-01' PASSWORD 'p''w'"
unfolding create_role literal decimal_ℤ join
create_role_test = refl

create_secret_test :
    create_secret double_quoted "s3main" "s3" "s3://bucket/"
      (("SECRET", "sec") ∷ ("key_id", "id") ∷ ("REGION", "eu") ∷ [])
    ≡ ok
        "CREATE OR REPLACE PERSISTENT SECRET \"s3main\" (TYPE s3, SCOPE 's3://bucket/', REGION 'eu', SECRET 'sec', KEY_ID 'id')"
unfolding create_secret option_name literal join lookup sort str_less
create_secret_test = refl
