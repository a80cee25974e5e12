-- ===== src/SqlExec/Connection.antt =====
-- internal/sqlexec/session.go: `Connect`, and the session that it returns. pgx is a parameter: what its
-- calls answer depends on a state that they change, in which its connections and result sets live.
pub mod Laws
pub mod Settings
use serenedb_operator.Prelude.Decimal.{decimal}
use serenedb_operator.Errors.{ok, err, Err, Result}
use serenedb_operator.Prelude.{
  true, false, map, ◌++◌, if◌then◌else◌, ◌∷◌, [], some, none, Option, List, Bool, ℕ, zero, suc,
  String, ◌<>◌,
}
use serenedb_operator.SqlExec.{Target}

-- What the code calls of pgx, and `fmt.Sprint` of a column's value.
pub record Pgx : Type 1 where
  pub ConnConfig : Type 0
  pub Conn : Type 0
  pub Rows : Type 0
  pub Value : Type 0
  pub State : Type 0
  pub parse_config : String → Result ConnConfig
  pub set_password : String → ConnConfig → ConnConfig
  pub set_simple_protocol : ConnConfig → ConnConfig
  pub connect_config : ConnConfig → State → Result Conn × State
  pub exec : Conn → String → State → Option Err × State
  pub query : Conn → String → State → Result Rows × State
  pub next : Rows → State → Bool × State
  pub values : Rows → State → Result (List Value) × State
  pub rows_err : Rows → State → Option Err
  pub close_rows : Rows → State → State
  pub close : Conn → State → Option Err × State
  pub sprint : Value → String

-- Go's two results of `Query`: the rows, and an error, which may come with rows.
abbrev pub Answer : Type 0
Answer = List (List String) × Option Err

abbrev pub ssl_mode : Bool → String
ssl_mode tls = if tls then "require" else "disable"

-- The connection string, which holds no password.
unfoldable pub connection_string : Target → String
connection_string target =
    "host="
    <> target.host
    <> " port="
    <> decimal target.port
    <> " user="
    <> target.user
    <> " dbname=postgres sslmode="
    <> ssl_mode target.tls
    <> " connect_timeout=10"

module _ (pgx : Pgx) where
  abbrev pub on_config : Target → Result pgx.ConnConfig → pgx.State → Result pgx.Conn × pgx.State
  on_config target (err e) s = (err e, s)
  on_config target (ok cfg) s =
      pgx.connect_config (pgx.set_simple_protocol (pgx.set_password target.password cfg)) s

  -- Opens one pg-wire connection to the target.
  unfoldable pub connect : Target → pgx.State → Result pgx.Conn × pgx.State
  connect target s = on_config target (pgx.parse_config (connection_string target)) s

  abbrev pub exec : pgx.Conn → String → pgx.State → Option Err × pgx.State
  exec conn statement s = pgx.exec conn statement s

  -- What the loop does behind `Values`, with the way to go on.
  abbrev pub on_row :
      (List (List String) → pgx.State → Option (Answer × pgx.State))
      → List (List String)
      → Result (List pgx.Value)
      → pgx.State
      → Option (Answer × pgx.State)
  on_row go out (err e) s = some (([], some e), s)
  on_row go out (ok vs) s = go (out ++ map pgx.sprint vs ∷ []) s

  -- What the loop does behind `Next`.
  abbrev pub on_next :
      (List (List String) → pgx.State → Option (Answer × pgx.State))
      → pgx.Rows
      → List (List String)
      → Bool
      → pgx.State
      → Option (Answer × pgx.State)
  on_next go rows out false s = some ((out, pgx.rows_err rows s), s)
  on_next go rows out true s = let (got, s1) = pgx.values rows s in on_row go out got s1

  -- The loop, with the rows that are read so far; `none` where the fuel is spent.
  unfoldable pub read_rows :
      ℕ → pgx.Rows → List (List String) → pgx.State → Option (Answer × pgx.State)
  read_rows zero rows out s = none
  read_rows (suc fuel) rows out s =
      let (more, s1) = pgx.next rows s in on_next (read_rows fuel rows) rows out more s1

  -- `defer rows.Close()`
  abbrev pub closing_rows : pgx.Rows → Option (Answer × pgx.State) → Option (Answer × pgx.State)
  closing_rows rows none = none
  closing_rows rows (some (a, s)) = some (a, pgx.close_rows rows s)

  abbrev pub on_rows : ℕ → Result pgx.Rows → pgx.State → Option (Answer × pgx.State)
  on_rows fuel (err e) s = some (([], some e), s)
  on_rows fuel (ok rows) s = closing_rows rows (read_rows fuel rows [] s)

  unfoldable pub query : ℕ → pgx.Conn → String → pgx.State → Option (Answer × pgx.State)
  query fuel conn text s = let (got, s1) = pgx.query conn text s in on_rows fuel got s1

  abbrev pub close : pgx.Conn → pgx.State → Option Err × pgx.State
  close conn s = pgx.close conn s
