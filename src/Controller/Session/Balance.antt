-- ===== src/Controller/Session/Balance.antt =====
-- Rules for operations that close every session that they open.
use serenedb_operator.Prelude.{◌+◌, ◌≡◌, String, Bool, true, false, arith, if◌then◌else◌}
use serenedb_operator.Errors.{Result, ok, err}
use serenedb_operator.Api.Meta.{NamespacedName}
use serenedb_operator.Controller.Kube.{Env, Kind, History, get_object}
use serenedb_operator.Controller.Op.{
  Op, Outcome, done, stopped, failed, panicked, continue, closing, capture, perform, exec_sql,
  exists, lift, ◌>>=◌,
}
use serenedb_operator.Controller.Database.{valid_or_stop}
use serenedb_operator.Controller.Session.{open_session, with_session}
use serenedb_operator.Controller.Session.Laws.{
  opens, closes, IsBalanced, is_done, opens-open_session,
}

module _ {A B : Type 0} where
  continue-IsBalanced :
      (r : Outcome A) (f : A → Op B) → ((a : A) → IsBalanced (f a)) → IsBalanced (continue r f)
  continue-IsBalanced (done a) f b h = b a h
  continue-IsBalanced (stopped x) f b h = omega arith
  continue-IsBalanced (failed e) f b h = omega arith
  continue-IsBalanced panicked f b h = omega arith

  pub bind-IsBalanced :
      (m : Op A) (f : A → Op B) → IsBalanced m → ((a : A) → IsBalanced (f a)) → IsBalanced (m >>= f)
  bind-IsBalanced m f bm bf h = omega (arith, bm h, continue-IsBalanced (m h).0 f bf (m h).1)

  -- A handler takes the outcome of `m` as a value.
  pub capture-IsBalanced :
      (m : Op A) (f : Outcome A → Op B)
      → IsBalanced m
      → ((r : Outcome A) → IsBalanced (f r))
      → IsBalanced (capture m >>= f)
  capture-IsBalanced m f bm bf h = omega (arith, bm h, bf (m h).0 (m h).1)

module _ {A : Type 0} where
  pub if-IsBalanced :
      (b : Bool) (m n : Op A) → IsBalanced m → IsBalanced n → IsBalanced (if b then m else n)
  if-IsBalanced true m n bm bn = bm
  if-IsBalanced false m n bm bn = bn

  after_open-IsBalanced :
      (body : Op A)
      → IsBalanced body
      → (r : Outcome (Unit {0})) (h h1 : History)
      → opens h1 + closes h ≡ is_done r + (closes h1 + opens h)
      → opens (continue r (λ _. closing body) h1).1 + closes h
        ≡ closes (continue r (λ _. closing body) h1).1 + opens h
  unfolding opens closes
  after_open-IsBalanced body b (done u) h h1 e = omega (arith, b h1)
  after_open-IsBalanced body b (stopped x) h h1 e = omega arith
  after_open-IsBalanced body b (failed x) h h1 e = omega arith
  after_open-IsBalanced body b panicked h h1 e = omega arith

  -- A session is closed behind its body, however the body ends.
  pub with_session-IsBalanced :
      (env : Env) (namespace cluster : String) (body : Op A)
      → IsBalanced body
      → IsBalanced (with_session env namespace cluster body)
  with_session-IsBalanced env namespace cluster body b h =
      after_open-IsBalanced body b (open_session env namespace cluster h).0 h
        (open_session env namespace cluster h).1 (opens-open_session env namespace cluster h)

pub exec_sql-IsBalanced : (env : Env) (s : String) → IsBalanced (exec_sql env s)
unfolding opens closes
exec_sql-IsBalanced env s h = ground arith

pub exists-IsBalanced : (env : Env) (s : String) → IsBalanced (exists env s)
unfolding opens closes
exists-IsBalanced env s h = ground arith

pub get_object-IsBalanced :
    {A : Type 0} (kind : Kind) (key : NamespacedName) (f : History → Result A)
    → IsBalanced (perform (get_object kind key) f)
unfolding opens closes
get_object-IsBalanced kind key f h = ground arith

pub lift-IsBalanced : {A : Type 0} (r : Result A) → IsBalanced (lift r)
lift-IsBalanced (ok a) h = omega arith
lift-IsBalanced (err e) h = omega arith

pub valid_or_stop-IsBalanced : (r : Result String) → IsBalanced (valid_or_stop r)
valid_or_stop-IsBalanced (ok a) h = omega arith
valid_or_stop-IsBalanced (err e) h = omega arith
