-- ===== src/SqlExec/Fake.antt =====
-- internal/sqlexec/fake.go: the recorder that stands in for a server in the controllers' tests. The
-- mutex makes every method one step, so that any interleaving is a sequence of steps.
pub mod Laws
use serenedb_operator.Prelude.Dict.{lookup, insert, Dict}
use serenedb_operator.Errors.{Err}
use serenedb_operator.Prelude.{
  ◌==◌, ◌++◌, suc, some, none, get_or, any, ◌∷◌, [], Option, List, Bool, ℕ, String,
}

pub record Fake : Type 0 where
  pub statements : List String
  pub rows : Dict (List (List String))
  pub connect_err : Option Err
  pub exec_err : Option Err
  pub connects : ℕ

abbrev pub new_fake : Fake
new_fake = record { statements = []; rows = []; connect_err = none; exec_err = none; connects = 0 }

-- The function that `Connector` returns; its error, or none and a session on this Fake.
unfoldable pub connect : Fake → Option Err × Fake
connect f = (f.connect_err, record f { connects = suc f.connects })

unfoldable pub answer : String → List (List String) → Fake → Fake
answer query rows f = record f { rows = insert query rows f.rows }

unfoldable pub executed : String → Fake → Bool
executed statement f = any (λ s. s == statement) f.statements

unfoldable pub recorded : Fake → List String
recorded f = f.statements

abbrev pub record_unless : Option Err → String → Fake → Option Err × Fake
record_unless (some e) statement f = (some e, f)
record_unless none statement f = (none, record f { statements = f.statements ++ statement ∷ [] })

unfoldable pub exec : String → Fake → Option Err × Fake
exec statement f = record_unless f.exec_err statement f

-- A missing key of the map reads as no rows.
unfoldable pub query : String → Fake → List (List String) × Fake
query text f = (get_or [] (lookup text f.rows), record f { statements = f.statements ++ text ∷ [] })

abbrev pub close : Fake → Option Err × Fake
close f = (none, f)
