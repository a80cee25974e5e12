-- ===== src/Controller/Finalize/Laws.antt =====
-- `finalize` of internal/controller/dependent.go: the finalizer is removed only behind the drop.
use serenedb_operator.Prelude.{◌+◌, ◌≡◌, String, Bool, true, false, none, some, Option, arith, not}
use serenedb_operator.Api.Meta.{dependent_finalizer}
use serenedb_operator.Controller.Kube.{Env, History}
use serenedb_operator.Controller.Op.{
  wrapping, Op, Outcome, done, stopped, failed, panicked, CtrlResult, pure, no_requeue,
}
use serenedb_operator.Controller.Session.{open_session}
use serenedb_operator.Controller.Session.Laws.{
  opens, closes, IsBalanced, is_done, opens-open_session,
}
use serenedb_operator.Controller.Session.Balance.{bind-IsBalanced, if-IsBalanced}
use serenedb_operator.Controller.Finalize.{
  Finalized, finalize, cluster_gone, remove_finalizer, drop_on_server, ensure_finalizer, after_open,
  drop_unless,
}

module _ (env : Env) where
  cluster_gone-IsBalanced : (ns c : String) → IsBalanced (cluster_gone env ns c)
  unfolding cluster_gone opens closes
  cluster_gone-IsBalanced ns c h = ground arith

  remove_finalizer-IsBalanced : (obj : Finalized) → IsBalanced (remove_finalizer env obj)
  unfolding remove_finalizer opens closes
  remove_finalizer-IsBalanced obj h = ground arith

  after_open-IsBalanced :
      (drop : Op (Unit {0})) (rest : Op CtrlResult)
      → IsBalanced drop
      → IsBalanced rest
      → (r : Outcome (Unit {0})) (h h1 : History)
      → opens h1 + closes h ≡ is_done r + (closes h1 + opens h)
      → opens (after_open drop rest r h1).1 + closes h
        ≡ closes (after_open drop rest r h1).1 + opens h
  unfolding opens closes
  after_open-IsBalanced drop rest b br (done u) h h1 e =
      omega (
        arith,
        bind-IsBalanced (wrapping "drop on server" drop) (λ v. rest) (λ k. b k) (λ v. br) h1,
      )
  after_open-IsBalanced drop rest b br (stopped x) h h1 e = omega arith
  after_open-IsBalanced drop rest b br (failed x) h h1 e = omega arith
  after_open-IsBalanced drop rest b br panicked h h1 e = omega arith

  drop_on_server-IsBalanced :
      (ns c : String) (drop : Op (Unit {0})) (rest : Op CtrlResult)
      → IsBalanced drop
      → IsBalanced rest
      → IsBalanced (drop_on_server env ns c drop rest)
  unfolding drop_on_server
  drop_on_server-IsBalanced ns c drop rest b br h =
      after_open-IsBalanced drop rest b br (open_session env ns c h).0 h (open_session env ns c h).1
        (opens-open_session env ns c h)

  -- A wanted drop that is balanced.
  abbrev pub IsBalancedDrop : Option (Op (Unit {0})) → Type 0
  IsBalancedDrop none = Unit
  IsBalancedDrop (some drop) = IsBalanced drop

  drop_unless-IsBalanced :
      (gone : Bool) (ns c : String) (wanted : Option (Op (Unit {0}))) (rest : Op CtrlResult)
      → IsBalancedDrop wanted
      → IsBalanced rest
      → IsBalanced (drop_unless env gone ns c wanted rest)
  drop_unless-IsBalanced gone ns c none rest b br h = br h
  drop_unless-IsBalanced true ns c (some drop) rest b br h = br h
  drop_unless-IsBalanced false ns c (some drop) rest b br h =
      drop_on_server-IsBalanced ns c drop rest b br h

  -- `finalize` closes the session that it opens, where the drop closes those that it opens.
  pub finalize-IsBalanced :
      (obj : Finalized) (c : String) (wanted : Option (Op (Unit {0})))
      → IsBalancedDrop wanted
      → IsBalanced (finalize env obj c wanted)
  unfolding finalize
  finalize-IsBalanced obj c wanted b =
      if-IsBalanced {A = CtrlResult}
        (not (env.lib.contains_finalizer obj.metadata.finalizers dependent_finalizer))
        (pure no_requeue) _ (λ h. omega arith)
        (bind-IsBalanced (cluster_gone env obj.metadata.namespace c) _
          (cluster_gone-IsBalanced obj.metadata.namespace c)
          λ gone.
            drop_unless-IsBalanced gone obj.metadata.namespace c wanted (remove_finalizer env obj) b
              (remove_finalizer-IsBalanced obj))

  pub ensure_finalizer-IsBalanced : (obj : Finalized) → IsBalanced (ensure_finalizer env obj)
  unfolding ensure_finalizer opens closes
  ensure_finalizer-IsBalanced obj h = ground arith
