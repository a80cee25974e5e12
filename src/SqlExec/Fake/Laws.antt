-- ===== src/SqlExec/Fake/Laws.antt =====
-- internal/sqlexec/fake.go: what a Fake holds after any sequence of calls of its methods.
use serenedb_operator.Prelude.Dict.{lookup-insert, lookup}
use serenedb_operator.Errors.{Err}
use mathlib.Core.Path.{sym}
use serenedb_operator.Prelude.{
  get_or, inl, inr, some, none, if◌then◌else◌, refl, append_assoc, append-nil, inr, inl, ap,
  Option-cases, ◌∷◌, ◌∙◌, ◌==◌, suc, [], ◌+◌, ℕ, any, ◌++◌, arith, String, Option, List, ◌≡◌,
}
use serenedb_operator.SqlExec.Fake.{
  new_fake, Fake, connect, answer, executed, recorded, exec, query, close,
}

-- One call of a method that may change the Fake.
pub data Act : Type 0 where
  connecting closing : Act
  answering : String → List (List String) → Act
  executing querying : String → Act

abbrev pub act : Act → Fake → Fake
act connecting f = (connect f).1
act closing f = (close f).1
act (answering q rows) f = answer q rows f
act (executing s) f = (exec s f).1
act (querying q) f = (query q f).1

-- The calls in the order in which they take the mutex.
abbrev pub run : List Act → Fake → Fake
run [] f = f
run (a ∷ acts) f = run acts (act a f)

-- What a server with this error for statements would have seen.
abbrev pub seen : Act → Option Err → List String
seen (executing s) none = s ∷ []
seen (executing s) (some e) = []
seen (querying q) e = q ∷ []
seen connecting e = []
seen closing e = []
seen (answering q rows) e = []

abbrev pub all_seen : Option Err → List Act → List String
all_seen e [] = []
all_seen e (a ∷ acts) = seen a e ++ all_seen e acts

abbrev pub connections : List Act → ℕ
connections [] = 0
connections (connecting ∷ acts) = suc (connections acts)
connections (a ∷ acts) = connections acts

-- The rows of the latest answer that was set for the query, or those from before.
abbrev pub latest : List Act → String → Option (List (List String)) → Option (List (List String))
latest [] q o = o
latest (answering k rows ∷ acts) q o = latest acts q (if k == q then some rows else o)
latest (a ∷ acts) q o = latest acts q o

act_statements : (a : Act) (f : Fake) → (act a f).statements ≡ f.statements ++ seen a f.exec_err
unfolding connect answer exec query
act_statements connecting f = sym (append-nil f.statements)
act_statements closing f = sym (append-nil f.statements)
act_statements (answering q rows) f = sym (append-nil f.statements)
act_statements (executing s) f = elim (Option-cases f.exec_err) [
  | inl e ↦ rw e refl
  | inr (x, e) ↦ rw e (sym (append-nil f.statements))
]
act_statements (querying q) f = refl

act_exec_err : (a : Act) (f : Fake) → (act a f).exec_err ≡ f.exec_err
unfolding connect answer exec query
act_exec_err connecting f = refl
act_exec_err closing f = refl
act_exec_err (answering q rows) f = refl
act_exec_err (executing s) f = ground arith
act_exec_err (querying q) f = refl

run_statements :
    (acts : List Act) (f : Fake) → recorded (run acts f) ≡ recorded f ++ all_seen f.exec_err acts
unfolding recorded
run_statements [] f = sym (append-nil f.statements)
run_statements (a ∷ acts) f =
    run_statements acts (act a f)
    ∙ rw (act_exec_err a f, act_statements a f)
        (append_assoc f.statements (seen a f.exec_err) (all_seen f.exec_err acts))

run_connects : (acts : List Act) (f : Fake) → (run acts f).connects ≡ f.connects + connections acts
unfolding connect answer exec query
run_connects [] f = omega arith
run_connects (connecting ∷ acts) f = omega (arith, run_connects acts (act connecting f))
run_connects (closing ∷ acts) f = run_connects acts f
run_connects (answering q rows ∷ acts) f = run_connects acts (answer q rows f)
run_connects (executing s ∷ acts) f = ground (arith, run_connects acts (exec s f).1)
run_connects (querying q ∷ acts) f = run_connects acts (query q f).1

run_rows :
    (acts : List Act) (q : String) (f : Fake)
    → lookup q (run acts f).rows ≡ latest acts q (lookup q f.rows)
unfolding connect answer exec query
run_rows [] q f = refl
run_rows (connecting ∷ acts) q f = run_rows acts q (connect f).1
run_rows (closing ∷ acts) q f = run_rows acts q f
run_rows (answering k rows ∷ acts) q f =
    run_rows acts q (answer k rows f) ∙ ap (latest acts q) (lookup-insert k q rows f.rows)
run_rows (executing s ∷ acts) q f = ground (arith, run_rows acts q (exec s f).1)
run_rows (querying k ∷ acts) q f = run_rows acts q (query k f).1

-- After any sequence of calls a new Fake has recorded the queries, and the statements that it did not
-- refuse, in their order; `Executed` tells exactly those; the connections are counted; and a query
-- is answered by the rows that were set last for it, or by none.
pub run-new_fake :
    (acts : List Act) (e : Option Err)
    → let f : Fake = run acts (record new_fake { exec_err = e }) in
      (recorded f ≡ all_seen e acts)
      × ((s : String) → executed s f ≡ any (λ x. x == s) (all_seen e acts))
      × (f.connects ≡ connections acts)
      × ((q : String) → (query q f).0 ≡ get_or [] (latest acts q none))
unfolding recorded executed query lookup
run-new_fake acts e =
    let f : Fake = record new_fake { exec_err = e } in
    let held = run_statements acts f in
    (
      held,
      λ s. ap (any (λ x. x == s)) held,
      omega (arith, run_connects acts f),
      λ q. ap (get_or []) (run_rows acts q f),
    )
