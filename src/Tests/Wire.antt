-- ===== src/Tests/Wire.antt =====
-- Examples: a session on a small server, the connection string and the Fake.
use serenedb_operator.Prelude.Decimal.{decimal}
use serenedb_operator.Prelude.{
  arith, ◌≡◌, refl, String, Bool, true, false, none, some, List, [], ◌∷◌, any, ◌==◌, get_or,
}
use serenedb_operator.Errors.{Result, ok, err, errorf}
use serenedb_operator.SqlExec.{Target}
use serenedb_operator.SqlExec.Connection.{Pgx, query, connection_string}
use serenedb_operator.SqlExec.Connection.Laws.{IsCursor, answer_of, read_all, query-read_all}
use serenedb_operator.SqlExec.Connection.Settings.{settings, settings-connection_string}
use serenedb_operator.SqlExec.Fake as Fake
use serenedb_operator.SqlExec.Fake.{Fake, new_fake, recorded, executed}
use serenedb_operator.SqlExec.Fake.Laws.{
  Act, connecting, closing, answering, executing, querying, run, latest, run-new_fake,
}

-- The rows that are left are the state.
abbrev Left : Type 0
Left = List (Result (List String))

abbrev next_row : Left → Bool × Left
next_row [] = (false, [])
next_row (x ∷ xs) = (true, x ∷ xs)

abbrev read_row : Left → Result (List String) × Left
read_row [] = (err (errorf "no row"), [])
read_row (x ∷ xs) = (x, xs)

abbrev small : Pgx
small = record {
  ConnConfig = String;
  Conn = Unit {0};
  Rows = Unit {0};
  Value = String;
  State = Left;
  parse_config = λ s. ok s;
  set_password = λ p c. c;
  set_simple_protocol = λ c. c;
  connect_config = λ c s. (ok tt, s);
  exec = λ c q s. (none, s);
  query = λ c q s. (ok tt, ok ("postgres" ∷ []) ∷ ok ("app" ∷ []) ∷ []);
  next = λ r s. next_row s;
  values = λ r s. read_row s;
  rows_err = λ r s. none;
  close_rows = λ r s. [];
  close = λ c s. (none, s);
  sprint = λ v. v;
}

abbrev small-IsCursor : IsCursor small
small-IsCursor = record {
  remaining = λ r s. s;
  ending = λ r s. none;
  next_more = λ r s x xs e. rw e (refl, refl, refl, refl);
  next_end = λ r s e. rw e (refl, refl);
}

abbrev two_rows : Left
two_rows = ok ("postgres" ∷ []) ∷ ok ("app" ∷ []) ∷ []

query-read_all_example :
    answer_of small (query small 3 tt "SELECT datname FROM pg_database" [])
    ≡ some (read_all small [] two_rows none)
query-read_all_example =
    query-read_all small small-IsCursor 3 tt "SELECT datname FROM pg_database" [] two_rows tt refl
      (omega arith)

-- The rows are those of the server.
small_rows : read_all small [] two_rows none ≡ (("postgres" ∷ []) ∷ ("app" ∷ []) ∷ [], none)
unfolding read_all
small_rows = refl

abbrev target : Target
target = record {
  host = "main.prod.svc";
  port = 7890;
  user = "postgres";
  password = "s3cret";
  tls = true;
}

settings-connection_string_example :
    settings (connection_string target)
    ≡ ("host", "main.prod.svc")
      ∷ ("port", decimal 7890)
      ∷ ("user", "postgres")
      ∷ ("dbname", "postgres")
      ∷ ("sslmode", "require")
      ∷ ("connect_timeout", "10")
      ∷ []
settings-connection_string_example = settings-connection_string target refl refl

abbrev acts : List Act
acts =
    connecting
    ∷ answering "SELECT 1" (("1" ∷ []) ∷ [])
    ∷ executing "CREATE DATABASE app"
    ∷ querying "SELECT 1"
    ∷ closing
    ∷ []

run-new_fake_example :
    let f : Fake = run acts (record new_fake { exec_err = none }) in
    (recorded f ≡ "CREATE DATABASE app" ∷ "SELECT 1" ∷ [])
    × ((s : String) → executed s f ≡ any (λ x. x == s) ("CREATE DATABASE app" ∷ "SELECT 1" ∷ []))
    × (f.connects ≡ 1)
    × ((q : String) → (Fake.query q f).0 ≡ get_or [] (latest acts q none))
run-new_fake_example = run-new_fake acts none
