-- ===== src/Controller/Total.antt =====
-- Panics: what internal/controller/dependent.go shares never does so by itself.
pub mod Dependents
pub mod Backups
pub mod Roles
use serenedb_operator.Api.Meta.{dependent_finalizer}
use serenedb_operator.Controller.Trace.{
  is_panic, IsTotal-if, IsTotal-capture, IsTotal-bind, IsTotal,
}
use serenedb_operator.Controller.Session.{with_session, superuser_password, open_session}
use serenedb_operator.Controller.Finalize.{
  after_open, drop_unless, Finalized, remove_finalizer, finalize, ensure_finalizer, drop_on_server,
  cluster_gone,
}
use serenedb_operator.Controller.Op.{
  wrapping, stopped, panicked, failed, done, no_requeue, pure, CtrlResult, Outcome, Op,
}
use serenedb_operator.Controller.Kube.{Env}
use serenedb_operator.Prelude.{
  not, ℕ, ◌≡◌, refl, String, Bool, true, false, none, some, Option, arith,
}

-- A wanted drop that does not panic.
abbrev pub IsTotalDrop : Option (Op (Unit {0})) → Type 0
IsTotalDrop none = Unit
IsTotalDrop (some drop) = IsTotal drop

module _ (env : Env) where
  pub open_session-IsTotal : (ns c : String) → IsTotal (open_session env ns c)
  unfolding open_session superuser_password
  open_session-IsTotal ns c h = ground arith

  pub with_session-IsTotal :
      {A : Type 0} (ns c : String) (body : Op A)
      → IsTotal body
      → IsTotal (with_session env ns c body)
  with_session-IsTotal ns c body t =
      IsTotal-bind (open_session env ns c) _ (open_session-IsTotal ns c) (λ u h. t h)

  after_open-IsTotal :
      (drop : Op (Unit {0})) (rest : Op CtrlResult)
      → IsTotal drop
      → IsTotal rest
      → (r : Outcome (Unit {0})) → is_panic r ≡ false
      → IsTotal (after_open drop rest r)
  after_open-IsTotal drop rest t tr (done u) n h =
      IsTotal-bind (wrapping "drop on server" drop) (λ v. rest) (λ k. ground (arith, t k)) (λ v. tr)
        h
  after_open-IsTotal drop rest t tr (stopped x) n h = refl
  after_open-IsTotal drop rest t tr (failed x) n h = refl
  after_open-IsTotal drop rest t tr panicked n h = n

  drop_unless-IsTotal :
      (gone : Bool) (ns c : String) (wanted : Option (Op (Unit {0}))) (rest : Op CtrlResult)
      → IsTotalDrop wanted
      → IsTotal rest
      → IsTotal (drop_unless env gone ns c wanted rest)
  unfolding drop_on_server
  drop_unless-IsTotal gone ns c none rest t tr h = tr h
  drop_unless-IsTotal true ns c (some drop) rest t tr h = tr h
  drop_unless-IsTotal false ns c (some drop) rest t tr h =
      IsTotal-capture (open_session env ns c) (after_open drop rest) (open_session-IsTotal ns c)
        (after_open-IsTotal drop rest t tr) h

  remove_finalizer-IsTotal : (obj : Finalized) → IsTotal (remove_finalizer env obj)
  unfolding remove_finalizer
  remove_finalizer-IsTotal obj h = ground arith

  cluster_gone-IsTotal : (ns c : String) → IsTotal (cluster_gone env ns c)
  unfolding cluster_gone
  cluster_gone-IsTotal ns c h = ground arith

  pub finalize-IsTotal :
      (obj : Finalized) (c : String) (wanted : Option (Op (Unit {0})))
      → IsTotalDrop wanted
      → IsTotal (finalize env obj c wanted)
  unfolding finalize
  finalize-IsTotal obj c wanted t =
      let ns = obj.metadata.namespace in
      IsTotal-if (not (env.lib.contains_finalizer obj.metadata.finalizers dependent_finalizer))
        (pure no_requeue) _ (λ h. refl)
        (IsTotal-bind (cluster_gone env ns c) _ (cluster_gone-IsTotal ns c) λ gone.
          drop_unless-IsTotal gone ns c wanted (remove_finalizer env obj) t
            (remove_finalizer-IsTotal obj))

  pub ensure_finalizer-IsTotal : (obj : Finalized) → IsTotal (ensure_finalizer env obj)
  unfolding ensure_finalizer
  ensure_finalizer-IsTotal obj h = ground arith
