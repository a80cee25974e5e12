-- ===== src/Controller/Trace.antt =====
-- Counts of the calls in a history, and rules for operations that make no call of a kind.
use serenedb_operator.Prelude.{
  ℕ, suc, ◌≡◌, refl, ap, ◌∙◌, Bool, true, false, [], ◌∷◌, arith, if◌then◌else◌, String,
}
use serenedb_operator.Errors.{Result, ok, err}
use serenedb_operator.Controller.Kube.{
  Call, History, Env, update, connect, exec, query, close, patch_status, create, patch, delete,
  create_or_update,
}
use serenedb_operator.Controller.Op.{
  capture, Op, Outcome, done, stopped, failed, panicked, continue, perform, lift, exec_sql, exists,
  ◌>>=◌,
}

-- How many calls of a history pass a test.
unfoldable pub count_of : (Call → Bool) → History → ℕ
count_of p [] = 0
count_of p (e ∷ h) = if p e.call then suc (count_of p h) else count_of p h

abbrev pub is_update : Call → Bool
is_update (update o) = true
is_update _ = false

abbrev pub is_connect : Call → Bool
is_connect (connect t) = true
is_connect _ = false

abbrev pub is_close : Call → Bool
is_close close = true
is_close _ = false

-- SQL that is run on the server.
abbrev pub is_sql : Call → Bool
is_sql (exec s) = true
is_sql (query s) = true
is_sql _ = false

abbrev pub is_status_patch : Call → Bool
is_status_patch (patch_status o o') = true
is_status_patch _ = false

-- A call that may change an object of the Kubernetes API.
abbrev pub is_write : Call → Bool
is_write (create o) = true
is_write (update o) = true
is_write (patch o o') = true
is_write (patch_status o o') = true
is_write (delete o) = true
is_write (create_or_update k n) = true
is_write _ = false

-- `m` makes no call that passes the test, whatever the outside answers.
abbrev pub Quiet : {A : Type 0} → (Call → Bool) → Op A → Type 0
Quiet p m = (h : History) → count_of p (m h).1 ≡ count_of p h

module _ (p : Call → Bool) {A B : Type 0} where
  Quiet-continue :
      (r : Outcome A) (f : A → Op B)
      → ((a : A) → Quiet p (f a))
      → (h : History) → count_of p (continue r f h).1 ≡ count_of p h
  Quiet-continue (done a) f q h = q a h
  Quiet-continue (stopped b) f q h = refl
  Quiet-continue (failed e) f q h = refl
  Quiet-continue panicked f q h = refl

  pub Quiet-bind :
      (m : Op A) (f : A → Op B) → Quiet p m → ((a : A) → Quiet p (f a)) → Quiet p (m >>= f)
  Quiet-bind m f qm qf h = Quiet-continue (m h).0 f qf (m h).1 ∙ qm h

module _ (p : Call → Bool) {A : Type 0} where
  pub Quiet-if : (b : Bool) (m n : Op A) → Quiet p m → Quiet p n → Quiet p (if b then m else n)
  Quiet-if true m n qm qn = qm
  Quiet-if false m n qm qn = qn

  pub Quiet-lift : (r : Result A) → Quiet p (lift r)
  Quiet-lift (ok a) h = refl
  Quiet-lift (err e) h = refl

  pub Quiet-perform : (c : Call) (f : History → Result A) → p c ≡ false → Quiet p (perform c f)
  unfolding count_of
  Quiet-perform c f e h = ground arith

module _ (p : Call → Bool) (env : Env) where
  pub Quiet-exec_sql : (s : String) → p (exec s) ≡ false → Quiet p (exec_sql env s)
  unfolding count_of
  Quiet-exec_sql s e h = ground arith

  pub Quiet-exists : (s : String) → p (query s) ≡ false → Quiet p (exists env s)
  unfolding count_of
  Quiet-exists s e h = ground arith

-- A sequence that comes to its end has come to the end of its first part.
module _ {A B : Type 0} where
  continue_done :
      (r : Outcome A) (f : A → Op B) (b : B) (h h' : History)
      → continue r f h ≡ (done b, h')
      → (a : A) × (r ≡ done a) × (f a h ≡ (done b, h'))
  continue_done (done a) f b h h' e = (a, refl, e)
  continue_done (stopped x) f b h h' e = absurd (ground arith)
  continue_done (failed x) f b h h' e = absurd (ground arith)
  continue_done panicked f b h h' e = absurd (ground arith)

  pub bind_done :
      (m : Op A) (f : A → Op B) (b : B) (h h' : History)
      → (m >>= f) h ≡ (done b, h')
      → (a : A) × (h1 : History) × (m h ≡ (done a, h1)) × (f a h1 ≡ (done b, h'))
  bind_done m f b h h' e =
      let (a, p, q) = continue_done (m h).0 f b (m h).1 h' e in
      (a, (m h).1, ap (λ o. (o, (m h).1)) p, q)

abbrev pub is_panic : {A : Type 0} → Outcome A → Bool
is_panic panicked = true
is_panic o = false

-- `m` never panics, whatever the outside answers.
abbrev pub IsTotal : {A : Type 0} → Op A → Type 0
IsTotal m = (h : History) → is_panic (m h).0 ≡ false

module _ {A B : Type 0} where
  IsTotal-continue :
      (r : Outcome A) (f : A → Op B)
      → is_panic r ≡ false
      → ((a : A) → IsTotal (f a))
      → IsTotal (continue r f)
  IsTotal-continue (done a) f n t h = t a h
  IsTotal-continue (stopped b) f n t h = refl
  IsTotal-continue (failed e) f n t h = refl
  IsTotal-continue panicked f n t h = n

  pub IsTotal-bind :
      (m : Op A) (f : A → Op B) → IsTotal m → ((a : A) → IsTotal (f a)) → IsTotal (m >>= f)
  IsTotal-bind m f tm tf h = IsTotal-continue (m h).0 f (tm h) tf (m h).1

  continue_at :
      (m : Op A) (f : A → Op B) (h h1 : History) (r : Outcome A)
      → m h ≡ (r, h1)
      → is_panic r ≡ false
      → ((a : A) → m h ≡ (done a, h1) → is_panic (f a h1).0 ≡ false)
      → is_panic (continue r f h1).0 ≡ false
  continue_at m f h h1 (done a) e n t = t a e
  continue_at m f h h1 (stopped b) e n t = refl
  continue_at m f h h1 (failed x) e n t = refl
  continue_at m f h h1 panicked e n t = n

  -- What follows is only run behind what the first operation gives.
  pub IsTotal-bind_at :
      (m : Op A) (f : A → Op B)
      → IsTotal m
      → ((a : A) (h h1 : History) → m h ≡ (done a, h1) → is_panic (f a h1).0 ≡ false)
      → IsTotal (m >>= f)
  IsTotal-bind_at m f tm tf h =
      continue_at m f h (m h).1 (m h).0 refl (tm h) (λ a e. tf a h (m h).1 e)

  -- A handler of an outcome is called with outcomes that are no panic.
  pub IsTotal-capture :
      (m : Op A) (f : Outcome A → Op B)
      → IsTotal m
      → ((r : Outcome A) → is_panic r ≡ false → IsTotal (f r))
      → IsTotal (capture m >>= f)
  IsTotal-capture m f tm tf h = tf (m h).0 (tm h) (m h).1

module _ {A : Type 0} where
  pub IsTotal-if : (b : Bool) (m n : Op A) → IsTotal m → IsTotal n → IsTotal (if b then m else n)
  IsTotal-if true m n tm tn = tm
  IsTotal-if false m n tm tn = tn

  -- `m` never panics and makes no call that passes the test.
  abbrev pub IsCalm : (Call → Bool) → Op A → Type 0
  IsCalm p m = Quiet p m × IsTotal m

  pub IsCalm-if :
      (p : Call → Bool) (b : Bool) (m n : Op A)
      → IsCalm p m
      → IsCalm p n
      → IsCalm p (if b then m else n)
  IsCalm-if p true m n cm cn = cm
  IsCalm-if p false m n cm cn = cn

pub IsCalm-bind :
    (p : Call → Bool) {A B : Type 0} (m : Op A) (f : A → Op B)
    → IsCalm p m
    → ((a : A) → IsCalm p (f a))
    → IsCalm p (m >>= f)
IsCalm-bind p m f cm cf =
    (Quiet-bind p m f cm.0 (λ a. (cf a).0), IsTotal-bind m f cm.1 (λ a. (cf a).1))
