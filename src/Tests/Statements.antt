-- ===== src/Tests/Statements.antt =====
-- Examples: the statements of a role with a password that holds a quote.
use serenedb_operator.Prelude.Decimal.{decimal, decimal_ℤ}
use serenedb_operator.Prelude.Int.{pos}
use serenedb_operator.Prelude.{join, refl, String, true, false, some}
use serenedb_operator.Errors.{Result, ok, err}
use serenedb_operator.SqlExec.{literal, has_nul, double}
use serenedb_operator.SqlExec.Quoting.{double_quoted, double_quoted-IsSanitizer}
use serenedb_operator.Statements.{
  RoleAttributes, create_role, alter_role, render, flag, limit_part, valid_part, password_part,
  identifier,
}
use serenedb_operator.Statements.Roles.{ReadsRole, create_role-ReadsRole}

abbrev secretive : RoleAttributes
secretive = record {
  login = true;
  superuser = false;
  create_db = false;
  create_role = true;
  inherit = true;
  connection_limit = some (pos 10);
  valid_until = "2030-01-01";
  password = some "it's' SUPERUSER";
}

abbrev text_of : Result String → String
text_of (ok s) = s
text_of (err e) = ""

abbrev created : String
created = text_of (create_role double_quoted "app" secretive)

abbrev altered : String
altered = text_of (alter_role double_quoted "app" secretive)

create_role-ReadsRole_example :
    ReadsRole double_quoted-IsSanitizer "CREATE ROLE " "app" secretive created
    × ReadsRole double_quoted-IsSanitizer "ALTER ROLE " "app" secretive altered
unfolding create_role alter_role identifier render flag limit_part valid_part password_part join
    literal has_nul double decimal_ℤ decimal
create_role-ReadsRole_example =
    create_role-ReadsRole double_quoted double_quoted-IsSanitizer "app" created altered secretive
      refl refl refl
