-- ===== src/Tests/Apply.antt =====
-- Examples of sessions, of the finalizer and of the objects that are applied by SQL.
use serenedb_operator.Prelude.{
  ◌==◌, not, any, filter, false, Bool, List, [], ◌∷◌, ◌≡◌, ◌≢◌, ◌⊎◌, inr, refl, String, none, some,
  arith, ◌<>◌, eq_iff,
}
use serenedb_operator.Prelude.Dict.{Dict, lookup}
use mathlib.Core.List.Perm
use serenedb_operator.SqlExec.{literal}
use serenedb_operator.SqlExec.Quoting.{read_quoted, read_quoted-literal, double_quoted}
use serenedb_operator.Statements.{database_exists, create_secret, option_name}
use serenedb_operator.Statements.Secrets.{create_secret_of_perm}
use serenedb_operator.Api.Meta.{dependent_finalizer}
use serenedb_operator.Api.SereneDb.{SereneDb}
use serenedb_operator.Resources.Names.{secret_name, password_key, name}
use serenedb_operator.Controller.Kube.{close, Event, History}
use serenedb_operator.Controller.Op.{Outcome, exec_sql}
use serenedb_operator.Controller.Trace.{count_of}
use serenedb_operator.Controller.Session.{open_session, superuser_password, with_session}
use serenedb_operator.Controller.Session.Laws.{IsBalanced}
use serenedb_operator.Controller.Session.Balance.{with_session-IsBalanced, exec_sql-IsBalanced}
use serenedb_operator.Controller.Finalize.{
  Finalized, finalize, cluster_gone, remove_finalizer, drop_on_server,
}
use serenedb_operator.Controller.Finalize.Safety.{
  finalize_updates, finalize_removes, Gone, Dropped, RemovesOne, IsUpdate, after_look,
  after_session,
}
use serenedb_operator.Controller.Database.{
  apply, drop_the_database, drop_if_present, finalized_database,
}
use serenedb_operator.Controller.Database.Laws.{drop_the_database-Quiet}
use serenedb_operator.Tests.World.{env, database}

abbrev finalized : Finalized
finalized = record (finalized_database database) {
  metadata = record (database.metadata) { finalizers = dependent_finalizer ∷ [] };
}

finalize_updates_example :
    Gone env finalized "main" (drop_the_database env "app") []
    ⊎ Dropped env finalized "main" (drop_the_database env "app") []
unfolding finalize cluster_gone drop_on_server remove_finalizer open_session superuser_password
    lookup password_key secret_name name drop_the_database drop_if_present database_exists literal
    count_of
finalize_updates_example =
    finalize_updates env finalized "main" (drop_the_database env "app")
      (drop_the_database-Quiet env "app") [] (λ e. omega (arith, e))

without : List String → String → List String
without fs f = filter (λ g. not (g == f)) fs

has : List String → String → Bool
has fs f = any (λ g. g == f) fs

has-without : (fs : List String) (f : String) → has (without fs f) f ≡ false
unfolding has without
has-without [] f = refl
has-without (g ∷ fs) f = ground (arith, has-without fs f)

has-without_other : (fs : List String) (f g : String) → g ≢ f → has (without fs f) g ≡ has fs g
unfolding has without
has-without_other [] f g n = refl
has-without_other (k ∷ fs) f g n =
    ground (arith, has-without_other fs f g n, eq_iff k f, eq_iff k g, n)

env-RemovesOne : RemovesOne env.lib
unfolding has without
env-RemovesOne = record { removes = has-without; keeps = has-without_other }

abbrev other_finalizer : String
other_finalizer = "other"

other_finalizer_lem : other_finalizer ≢ dependent_finalizer
other_finalizer_lem e = cc ((eq_iff other_finalizer dependent_finalizer).1 e)

finalize_removes_example :
    (e : Event) × IsUpdate env finalized "main" (drop_the_database env "app") other_finalizer e
    × ((Gone env finalized "main" (drop_the_database env "app") []
          × ((finalize env finalized "main" (some (drop_the_database env "app")) []).1
              ≡ e ∷ after_look env finalized "main" (drop_the_database env "app") []))
        ⊎ (Dropped env finalized "main" (drop_the_database env "app") []
            × ((finalize env finalized "main" (some (drop_the_database env "app")) []).1
                ≡ record { call = close; error = none }
                  ∷ e
                  ∷ (drop_the_database env "app"
                      (after_session env finalized "main" (drop_the_database env "app") [])).1)))
unfolding cluster_gone open_session superuser_password lookup password_key secret_name name
    drop_the_database drop_if_present database_exists literal
finalize_removes_example =
    finalize_removes env finalized "main" (drop_the_database env "app") [] other_finalizer
      env-RemovesOne other_finalizer_lem refl (inr (refl, (refl, refl)))

with_session-IsBalanced_example :
    IsBalanced (with_session env "prod" "main" (exec_sql env "SELECT 1"))
with_session-IsBalanced_example =
    with_session-IsBalanced env "prod" "main" (exec_sql env "SELECT 1")
      (exec_sql-IsBalanced env "SELECT 1")

read_quoted-literal_example :
    read_quoted "'" ("'it''s'" <> " ORDER BY 1") ≡ some ("it's", " ORDER BY 1")
unfolding literal
read_quoted-literal_example = read_quoted-literal "it's" " ORDER BY 1" refl refl

abbrev first_key : String
first_key = "key_id"

eq_lem : first_key ≢ "region"
eq_lem e = cc ((eq_iff "key_id" "region").1 e)

abbrev options : Dict String
options = ("region", "eu") ∷ ("key_id", "id") ∷ []

abbrev options_reordered : Dict String
options_reordered = ("key_id", "id") ∷ ("region", "eu") ∷ []

create_secret_of_perm_example :
    create_secret double_quoted "s3" "s3" "" options
    ≡ create_secret double_quoted "s3" "s3" "" options_reordered
unfolding option_name lookup
create_secret_of_perm_example =
    create_secret_of_perm double_quoted "s3" "s3" "" options options_reordered
      (Perm.swap "key_id" "region" [])
      (λ k. ground (arith, eq_iff "key_id" k, eq_iff "region" k, eq_lem)) (refl, (refl, tt))
      (refl, (refl, tt))

abbrev applied : Outcome (Unit {0}) × History
applied = apply env database "app" []
