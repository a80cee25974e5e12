-- ===== src/Controller/Backup/Sessions.antt =====
-- The sessions of internal/controller/backup_controller.go.
use serenedb_operator.Prelude.{
  ◌+◌, ◌≡◌, none, some, Option, arith, ◌∷◌, not, ◌==◌, ◌&&◌, ◌||◌, ◌<>◌, Bool-cases, inl, inr,
}
use serenedb_operator.Errors.{Result, ok, err, quoted}
use serenedb_operator.Api.Meta.{NamespacedName}
use serenedb_operator.Api.SereneDb.{SereneDb}
use serenedb_operator.Api.Backups.{
  Backup, backup_method_volume_snapshot, phase_completed, phase_failed, phase_running,
}
use serenedb_operator.Controller.Kube.{
  Env, History, get_object, a_backup, a_serenedb, exec, patch_status, backup,
}
use serenedb_operator.Controller.Op.{
  Outcome, done, stopped, failed, panicked, CtrlResult, perform, ask, no_requeue, as_result,
  error_of, pure, ◌>>=◌,
}
use serenedb_operator.Controller.Session.{open_session}
use serenedb_operator.Controller.Session.Laws.{
  opens, closes, IsBalanced, is_done, opens-open_session,
}
use serenedb_operator.Controller.Session.Balance.{
  bind-IsBalanced, if-IsBalanced, get_object-IsBalanced,
}
use serenedb_operator.Prelude.{is_some}
use serenedb_operator.Controller.Database.{status_patched}
use serenedb_operator.Controller.Backup.{
  Step, start, observe, observed, on_snapshot, on_cluster, on_session, checkpointed,
  request_snapshot, created, set_failed, step_of, run_step, reconcile_object, reconcile, after_get,
}

module _ (env : Env) where
  checkpointed-IsBalanced :
      (b : Backup) (db : SereneDb) (a : Result (Unit {0})) → IsBalanced (checkpointed env b db a)
  unfolding checkpointed request_snapshot created opens closes
  checkpointed-IsBalanced b db a h = ground arith

  on_session-IsBalanced :
      (b : Backup) (db : SereneDb) (o : Outcome (Unit {0})) (h h1 : History)
      → opens h1 + closes h ≡ is_done o + (closes h1 + opens h)
      → opens (on_session env b db o h1).1 + closes h
        ≡ closes (on_session env b db o h1).1 + opens h
  unfolding on_session opens closes
  on_session-IsBalanced b db (done u) h h1 e =
      let answer = as_result (env.answer h1 (exec "CHECKPOINT")) in
      let h2 : History = record { call = exec "CHECKPOINT"; error = error_of answer } ∷ h1 in
      omega (arith, e, checkpointed-IsBalanced b db answer h2)
  on_session-IsBalanced b db (stopped x) h h1 e = omega arith
  on_session-IsBalanced b db (failed x) h h1 e = omega arith
  on_session-IsBalanced b db panicked h h1 e = omega arith

  on_cluster-IsBalanced : (b : Backup) (r : Result SereneDb) → IsBalanced (on_cluster env b r)
  unfolding on_cluster
  on_cluster-IsBalanced b (ok db) h =
      on_session-IsBalanced b db (open_session env b.metadata.namespace b.spec.cluster.name h).0 h
        (open_session env b.metadata.namespace b.spec.cluster.name h).1
        (opens-open_session env b.metadata.namespace b.spec.cluster.name h)
  on_cluster-IsBalanced b (err e) h = ground arith

  start-IsBalanced : (b : Backup) → IsBalanced (start env b)
  unfolding start
  start-IsBalanced b =
      let key : NamespacedName = record {
        namespace = b.metadata.namespace;
        name = b.spec.cluster.name;
      } in
      if-IsBalanced {A = Backup × CtrlResult}
        (not (b.spec.method == "") && not (b.spec.method == backup_method_volume_snapshot))
        (pure (set_failed b ("unsupported method " <> quoted b.spec.method), no_requeue)) _
        (λ h. omega arith)
        (bind-IsBalanced (perform (get_object a_serenedb key) (λ h. env.get_serenedb h key))
          (on_cluster env b) (get_object-IsBalanced a_serenedb key _) (on_cluster-IsBalanced b))

  observe-IsBalanced : (b : Backup) → IsBalanced (observe env b)
  unfolding observe on_snapshot observed opens closes
  observe-IsBalanced b h = ground arith

  patched :
      (b b' : Backup) (result : CtrlResult)
      → IsBalanced
          (ask env (patch_status (backup b) (backup b')) >>= λ answer. status_patched result answer)
  unfolding opens closes
  patched b b' result h = ground arith

  -- The step that is run, as an operation of its own.
  abbrev IsBalancedStep : Option Step → Type 0
  IsBalancedStep none = Unit
  IsBalancedStep (some step) = IsBalanced step

  step_of-IsBalancedStep : (b : Backup) → IsBalancedStep (step_of env b)
  unfolding step_of
  step_of-IsBalancedStep b =
      elim (Bool-cases (b.status.phase == phase_completed || b.status.phase == phase_failed)) [
        | inl t ↦ rw t tt
        | inr t ↦ elim (Bool-cases (b.status.phase == phase_running)) [
          | inl u ↦ rw (t, u) (observe-IsBalanced b)
          | inr u ↦ rw (t, u) (start-IsBalanced b)
        ]
      ]

  run_step-IsBalanced :
      (b : Backup) (s : Option Step) → IsBalancedStep s → IsBalanced (run_step env b s)
  run_step-IsBalanced b none k h = omega arith
  run_step-IsBalanced b (some step) k h =
      bind-IsBalanced {B = CtrlResult} step _ k (λ (b', result). patched b b' result) h

  reconcile_object-IsBalanced : (b : Backup) → IsBalanced (reconcile_object env b)
  unfolding reconcile_object
  reconcile_object-IsBalanced b =
      if-IsBalanced {A = CtrlResult} (is_some b.metadata.deletion_timestamp) (pure no_requeue) _
        (λ h. omega arith) (run_step-IsBalanced b (step_of env b) (step_of-IsBalancedStep b))

  got-IsBalanced : (r : Result Backup) → IsBalanced (after_get env r)
  got-IsBalanced (ok b) h = reconcile_object-IsBalanced b h
  got-IsBalanced (err e) h = ground arith

  -- A reconcile of a Backup closes every session that it opens, whatever the outside answers.
  pub backup_reconcile-IsBalanced : (request : NamespacedName) → IsBalanced (reconcile env request)
  unfolding reconcile
  backup_reconcile-IsBalanced request =
      bind-IsBalanced (perform (get_object a_backup request) (λ h. env.get_backup h request))
        (after_get env) (get_object-IsBalanced a_backup request _) got-IsBalanced
