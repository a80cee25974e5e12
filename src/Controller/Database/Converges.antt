-- ===== src/Controller/Database/Converges.antt =====
-- internal/controller/database_controller.go, against a server whose databases are those that the
-- statements made: what an application and a drop reach, and that a second application changes
-- nothing.
use serenedb_operator.Statements.Distinct.{create_database_apart}
use serenedb_operator.Controller.Trace.{Quiet, count_of}
use serenedb_operator.Controller.Session.{superuser_password, open_session}
use mathlib.Core.Path.{sym}
use serenedb_operator.Statements.{drop_database, database_exists, create_database}
use serenedb_operator.Api.Dependents.{Database}
use serenedb_operator.Prelude.{
  is_some, inr, inl, ◌∙◌, eq_refl, ap, ◌≡◌, refl, String, Bool, true, false, Option, none, some,
  List, [], ◌∷◌, ◌==◌, if◌then◌else◌, arith,
}
use serenedb_operator.Errors.{Err, ok, Result-cases}
use serenedb_operator.Controller.Kube.{Env, History, Call, exec, query, close}
use serenedb_operator.Controller.Op.{done}
use serenedb_operator.Controller.Database.{apply, drop_the_database, drop_if_present}
use serenedb_operator.Controller.Database.Laws.{database_apply_runs, ran, first_row}

abbrev pub is_exec : Call → Bool
is_exec (exec s) = true
is_exec _ = false

abbrev pub took : Option Err → Bool
took none = true
took (some e) = false

module _ (sanitize : String → String) (name : String) (at_first : Bool) where
  -- What one statement, if the server took it, makes of the database.
  abbrev pub effect : Call → Bool → Bool
  effect (exec s) b =
      if s == create_database sanitize name
      then true
      else if s == drop_database sanitize name
      then false
      else b
  effect _ b = b

  -- Whether the server has the database after these calls.
  unfoldable pub has_database : History → Bool
  has_database [] = at_first
  has_database (e ∷ h) =
      let before = has_database h in if took e.error then effect e.call before else before

-- The server answers the query for the database by a row exactly where it has it.
abbrev pub IsServer : Env → String → Bool → Type 0
IsServer env name at_first =
    (h : History) (q : String) (rows : List (List String))
    → database_exists name ≡ ok q
    → env.rows h q ≡ ok rows
    → is_some (first_row env rows) ≡ has_database env.lib.sanitize name at_first h

module _ (env : Env) (name : String) (at_first : Bool) (server : IsServer env name at_first) where
  abbrev has : History → Bool
  has h = has_database env.lib.sanitize name at_first h

  ran-has :
      (o : Option (List String)) (h : History) → is_some o ≡ has h → has (ran env name o h) ≡ true
  unfolding has_database
  ran-has (some row) h e = sym e
  ran-has none h e = ground (arith, eq_refl (create_database env.lib.sanitize name))

  -- An application that ends well leaves the database on the server.
  apply-has : (d : Database) (h h' : History) → apply env d name h ≡ (done tt, h') → has h' ≡ true
  unfolding has_database
  apply-has d h h' e =
      let (q, rows, h1, p, opened, r, made) = database_apply_runs env d name h h' e in
      ap has made
      ∙ ran-has (first_row env rows) (record { call = query q; error = none } ∷ h1)
          (server h1 q rows p r)

  open_has : (ns c : String) (h : History) → has (open_session env ns c h).1 ≡ has h
  unfolding has_database open_session superuser_password
  open_has ns c h = ground arith

  open-Quiet : (ns c : String) → Quiet is_exec (open_session env ns c)
  unfolding count_of open_session superuser_password
  open-Quiet ns c h = ground arith

  ran_again :
      (o : Option (List String)) (q : String) (h : History)
      → is_some o ≡ true
      → count_of is_exec (
          record { call = close; error = none }
          ∷ ran env name o (record { call = query q; error = none } ∷ h))
        ≡ count_of is_exec h
  unfolding count_of
  ran_again (some row) q h e = refl
  ran_again none q h e = absurd (ground arith)

  -- An application of a database that the server has runs no statement.
  apply_again :
      (d : Database) (h h' : History)
      → has h ≡ true
      → apply env d name h ≡ (done tt, h')
      → count_of is_exec h' ≡ count_of is_exec h
  unfolding has_database
  apply_again d h h' there e =
      let (q, rows, h1, p, opened, r, made) = database_apply_runs env d name h h' e in
      let ns = d.metadata.namespace in
      let c = d.spec.cluster.name in
      let after : (open_session env ns c h).1 ≡ h1 = ap (λ o. o.1) opened in
      let known : is_some (first_row env rows) ≡ true =
        server h1 q rows p r ∙ ap has (sym after) ∙ open_has ns c h ∙ there in
      ap (count_of is_exec) made
      ∙ ran_again (first_row env rows) q h1 known
      ∙ ap (count_of is_exec) (sym after)
      ∙ open-Quiet ns c h

  drop_has : (h h' : History) → drop_the_database env name h ≡ (done tt, h') → has h' ≡ false
  unfolding has_database drop_the_database drop_if_present
  drop_has h h' e = elim (Result-cases (database_exists name)) [
    | inr (x, p) ↦ absurd (ground arith)
    | inl (q, p) ↦ elim (Result-cases (env.rows h q)) [
      | inr (x, r) ↦ absurd (ground arith)
      | inl ([], r) ↦ ground (arith, server h q [] p r)
      | inl (row ∷ rows, r) ↦ ground (
        arith,
        create_database_apart env.lib.sanitize name name,
        eq_refl (drop_database env.lib.sanitize name),
      )
    ]
  ]

  -- Where the server's databases are those that the statements made: an application that ends well leaves
  -- the database on the server, an application right behind it runs no statement, and a drop that
  -- ends well leaves the server without the database.
  pub apply_reaches :
      (d : Database) (h h' h'' k k' : History)
      → apply env d name h ≡ (done tt, h')
      → apply env d name h' ≡ (done tt, h'')
      → drop_the_database env name k ≡ (done tt, k')
      → (has_database env.lib.sanitize name at_first h' ≡ true)
        × (count_of is_exec h'' ≡ count_of is_exec h')
        × (has_database env.lib.sanitize name at_first k' ≡ false)
  apply_reaches d h h' h'' k k' e e' f =
      (apply-has d h h' e, apply_again d h' h'' (apply-has d h h' e) e', drop_has k k' f)
