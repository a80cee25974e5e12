-- ===== src/Controller/Session/Laws.antt =====
-- What `openSession` of internal/controller/dependent.go promises: a session is open exactly where it
-- ends well, and a session that was opened is closed.
use serenedb_operator.Prelude.{ℕ, ◌+◌, ◌≡◌, Option, none, [], ◌∷◌, arith, String}
use serenedb_operator.Errors.{Err}
use serenedb_operator.Api.SereneDb.{SereneDb}
use serenedb_operator.Controller.Kube.{Call, History, Env, connect, close}
use serenedb_operator.Controller.Op.{Op, Outcome, done}
use serenedb_operator.Controller.Session.{open_session, superuser_password}

abbrev opened : Call → Option Err → ℕ
opened (connect t) none = 1
opened c e = 0

abbrev closed : Call → ℕ
closed close = 1
closed c = 0

-- How many connections were made, and how many sessions were closed.
unfoldable pub opens : History → ℕ
opens [] = 0
opens (e ∷ h) = opened e.call e.error + opens h

unfoldable pub closes : History → ℕ
closes [] = 0
closes (e ∷ h) = closed e.call + closes h

-- The body leaves as many sessions open as there were.
abbrev pub IsBalanced : {A : Type 0} → Op A → Type 0
IsBalanced m = (h : History) → opens (m h).1 + closes h ≡ closes (m h).1 + opens h

abbrev pub is_done : {A : Type 0} → Outcome A → ℕ
is_done (done a) = 1
is_done o = 0

module _ (env : Env) where
  -- `openSession` opens one session where it ends well, and none where it does not.
  pub opens-open_session :
      (namespace cluster : String) (h : History)
      → opens (open_session env namespace cluster h).1 + closes h
        ≡ is_done (open_session env namespace cluster h).0
          + (closes (open_session env namespace cluster h).1 + opens h)
  unfolding open_session superuser_password opens closes
  opens-open_session namespace cluster h = ground arith
