-- ===== src/Controller/Op.antt =====
-- The operations of the reconcilers: they call the outside, extend the history, and end in a value, in
-- an unmet precondition or in an error. This is Go's `(value, *blocked, error)`.
use serenedb_operator.Prelude.{
  ℕ, ◌*◌, String, Bool, true, false, Option, none, some, List, [], ◌∷◌, if◌then◌else◌, ◌==◌,
}
use serenedb_operator.Prelude.Int.{ℤ, pos}
use serenedb_operator.Errors.{Err, Result, ok, err, Blocked, wrapped, is_not_found}
use serenedb_operator.Controller.Kube.{Call, History, Env, exec, query, close}

pub data Outcome (A : Type 0) : Type 0 where
  done : A → Outcome A
  stopped : Blocked → Outcome A
  failed : Err → Outcome A
  panicked : Outcome A

abbrev pub Op : Type 0 → Type 0
Op A = History → Outcome A × History

module _ {A : Type 0} where
  abbrev pub pure : A → Op A
  pure a h = (done a, h)

  abbrev pub stop : Blocked → Op A
  stop b h = (stopped b, h)

  abbrev pub fail : Err → Op A
  fail e h = (failed e, h)

  abbrev pub panic : Op A
  panic h = (panicked, h)

  -- The outcome as a value, for a caller that handles it.
  abbrev pub capture : Op A → Op (Outcome A)
  capture m h = let (r, h') = m h in (done r, h')

  -- `fmt.Errorf("text: %w", err)` round an error.
  abbrev pub wrap_failure : String → Outcome A → Outcome A
  wrap_failure s (failed e) = failed (wrapped s e)
  wrap_failure s (done a) = done a
  wrap_failure s (stopped b) = stopped b
  wrap_failure s panicked = panicked

  abbrev pub wrapping : String → Op A → Op A
  wrapping s m h = let (r, h') = m h in (wrap_failure s r, h')

  -- `defer session.Close(ctx)`: the session is closed however the body ends.
  abbrev pub closing : Op A → Op A
  closing m h = let (r, h') = m h in (r, record { call = close; error = none } ∷ h')

  abbrev pub lift : Result A → Op A
  lift (ok a) = pure a
  lift (err e) = fail e

  -- `if apierrors.IsNotFound(err) { return blocked }; if err != nil { return fmt.Errorf(…) }`
  abbrev pub found_or : Blocked → String → Result A → Op A
  found_or b s (ok a) = pure a
  found_or b s (err e) = if is_not_found e then stop b else fail (wrapped s e)

  abbrev pub error_of : Result A → Option Err
  error_of (ok a) = none
  error_of (err e) = some e

  -- One call of the outside.
  abbrev pub perform : Call → (History → Result A) → Op (Result A)
  perform c f h = let r = f h in (done r, record { call = c; error = error_of r } ∷ h)

module _ {A B : Type 0} where
  abbrev pub continue : Outcome A → (A → Op B) → History → Outcome B × History
  continue (done a) f h = f a h
  continue (stopped b) f h = (stopped b, h)
  continue (failed e) f h = (failed e, h)
  continue panicked f h = (panicked, h)

  infixl 5 ◌>>=◌ ◌>>◌
  abbrev pub ◌>>=◌ : Op A → (A → Op B) → Op B
  ◌>>=◌ m f h = let (r, h') = m h in continue r f h'

  abbrev pub ◌>>◌ : Op A → Op B → Op B
  m >> n = m >>= λ _. n

abbrev pub as_result : Option Err → Result (Unit {0})
as_result none = ok tt
as_result (some e) = err e

-- A call that returns only an error.
abbrev pub ask : Env → Call → Op (Result (Unit {0}))
ask env c = perform c (λ h. as_result (env.answer h c))

-- `ctrl.Result`, with the delay in nanoseconds; a delay of 0 asks for no requeue.
pub record CtrlResult : Type 0 where
  pub requeue_after : ℤ

abbrev pub no_requeue : CtrlResult
no_requeue = record { requeue_after = pos 0 }

abbrev pub second : ℕ
second = 1_000_000_000

abbrev pub requeue_seconds : ℕ → CtrlResult
requeue_seconds n = record { requeue_after = pos (n * second) }

-- `client.IgnoreNotFound(err)` as the error of a reconcile.
abbrev pub ignore_not_found : Err → Op CtrlResult
ignore_not_found e = if is_not_found e then pure no_requeue else fail e

-- `nameOrDefault`
abbrev pub name_or_default : String → String → String
name_or_default name fallback = if name == "" then fallback else name

abbrev pub exec_sql : Env → String → Op (Unit {0})
exec_sql env statement = do r ← ask env (exec statement); lift r

abbrev pub query_sql : Env → String → Op (List (List String))
query_sql env statement = do r ← perform (query statement) (λ h. env.rows h statement); lift r

abbrev is_nonempty : List (List String) → Bool
is_nonempty [] = false
is_nonempty (r ∷ rows) = true

-- Runs a query and reports whether it returned any row.
abbrev pub exists : Env → String → Op Bool
exists env statement = do rows ← query_sql env statement; pure (is_nonempty rows)
