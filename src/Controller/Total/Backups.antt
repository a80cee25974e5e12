-- ===== src/Controller/Total/Backups.antt =====
-- The controllers of Backup and ScheduledBackup do not panic.
use serenedb_operator.Prelude.Int.{pos, negsuc, ℤ}
use serenedb_operator.Controller.Database.{status_patched}
use serenedb_operator.Controller.Total.{open_session-IsTotal}
use serenedb_operator.Controller.Session.{open_session}
use serenedb_operator.Prelude.{◌∙◌, is_some}
use serenedb_operator.Controller.Op.{
  error_of, ◌>>=◌, stopped, panicked, no_requeue, failed, done, pure, perform, ask, Outcome,
  CtrlResult,
}
use serenedb_operator.Api.SereneDb.{SereneDb}
use serenedb_operator.Errors.{quoted, Result-cases, ok, err, Result}
use serenedb_operator.Controller.Trace.{
  IsTotal-bind_at, is_panic, IsTotal-capture, IsTotal-if, IsTotal-bind, IsTotal,
}
use serenedb_operator.Api.Meta.{Time, NamespacedName}
use serenedb_operator.Api.Backups.{
  backup_method_volume_snapshot, phase_running, phase_failed, phase_completed, ScheduledBackup,
  Backup,
}
use serenedb_operator.Controller.Kube.{
  list_backups, scheduled_backup, History, a_serenedb, a_backup, patch_status, get_object, backup,
  delete, Env,
}
use serenedb_operator.Controller.Backup
use serenedb_operator.Controller.Schedule
use serenedb_operator.Prelude.{
  ◌<>◌, ◌&&◌, not, inr, inl, ◌||◌, ◌==◌, Bool-cases, ◌≡◌, refl, Bool, true, false, none, some,
  Option, List, [], ◌∷◌, arith,
}

-- No negative number of Backups to keep.
abbrev pub is_count : Option ℤ → Bool
is_count none = true
is_count (some (pos n)) = true
is_count (some (negsuc n)) = false

abbrev pub HasCount : Result ScheduledBackup → Type 0
HasCount (ok s) = is_count s.spec.keep ≡ true
HasCount (err e) = Unit

-- The API server validates `keep` by the minimum of the CRD.
abbrev pub HasCounts : Env → Type 0
HasCounts env =
    (h : History) (request : NamespacedName) → HasCount (env.get_scheduled_backup h request)

module _ (env : Env) where
  checkpointed-IsTotal :
      (b : Backup) (db : SereneDb) (a : Result (Unit {0}))
      → IsTotal (Backup.checkpointed env b db a)
  unfolding Backup.checkpointed Backup.request_snapshot Backup.created
  checkpointed-IsTotal b db a h = ground arith

  on_session-IsTotal :
      (b : Backup) (db : SereneDb) (o : Outcome (Unit {0}))
      → is_panic o ≡ false
      → IsTotal (Backup.on_session env b db o)
  unfolding Backup.on_session
  on_session-IsTotal b db (done u) n h = checkpointed-IsTotal b db _ _
  on_session-IsTotal b db (stopped x) n h = refl
  on_session-IsTotal b db (failed x) n h = refl
  on_session-IsTotal b db panicked n h = n

  on_cluster-IsTotal : (b : Backup) (r : Result SereneDb) → IsTotal (Backup.on_cluster env b r)
  unfolding Backup.on_cluster
  on_cluster-IsTotal b (ok db) h =
      IsTotal-capture (open_session env b.metadata.namespace b.spec.cluster.name)
        (Backup.on_session env b db)
        (open_session-IsTotal env b.metadata.namespace b.spec.cluster.name)
        (on_session-IsTotal b db) h
  on_cluster-IsTotal b (err e) h = ground arith

  start-IsTotal : (b : Backup) → IsTotal (Backup.start env b)
  unfolding Backup.start
  start-IsTotal b =
      let key : NamespacedName = record {
        namespace = b.metadata.namespace;
        name = b.spec.cluster.name;
      } in
      IsTotal-if {A = Backup × CtrlResult}
        (not (b.spec.method == "") && not (b.spec.method == backup_method_volume_snapshot))
        (pure (Backup.set_failed b ("unsupported method " <> quoted b.spec.method), no_requeue)) _
        (λ h. refl)
        (IsTotal-bind (perform (get_object a_serenedb key) (λ h. env.get_serenedb h key))
          (Backup.on_cluster env b) (λ h. refl) (on_cluster-IsTotal b))

  observe-IsTotal : (b : Backup) → IsTotal (Backup.observe env b)
  unfolding Backup.observe Backup.on_snapshot Backup.observed
  observe-IsTotal b h = ground arith

  -- The step that is run.
  abbrev IsTotalStep : Option Backup.Step → Type 0
  IsTotalStep none = Unit
  IsTotalStep (some step) = IsTotal step

  step_of-IsTotalStep : (b : Backup) → IsTotalStep (Backup.step_of env b)
  unfolding Backup.step_of
  step_of-IsTotalStep b =
      elim (Bool-cases (b.status.phase == phase_completed || b.status.phase == phase_failed)) [
        | inl t ↦ rw t tt
        | inr t ↦ elim (Bool-cases (b.status.phase == phase_running)) [
          | inl u ↦ rw (t, u) (observe-IsTotal b)
          | inr u ↦ rw (t, u) (start-IsTotal b)
        ]
      ]

  patched-IsTotal :
      (b b' : Backup) (result : CtrlResult)
      → IsTotal
          (ask env (patch_status (backup b) (backup b')) >>= λ answer. status_patched result answer)
  patched-IsTotal b b' result h = ground arith

  run_step-IsTotal :
      (b : Backup) (s : Option Backup.Step) → IsTotalStep s → IsTotal (Backup.run_step env b s)
  run_step-IsTotal b none t h = refl
  run_step-IsTotal b (some step) t h =
      IsTotal-bind {B = CtrlResult} step _ t (λ (b', result). patched-IsTotal b b' result) h

  got_backup-IsTotal : (r : Result Backup) → IsTotal (Backup.after_get env r)
  unfolding Backup.reconcile_object
  got_backup-IsTotal (err e) h = ground arith
  got_backup-IsTotal (ok b) h =
      IsTotal-if {A = CtrlResult} (is_some b.metadata.deletion_timestamp) (pure no_requeue) _
        (λ h1. refl) (run_step-IsTotal b (Backup.step_of env b) (step_of-IsTotalStep b)) h

  -- A reconcile of a Backup never panics.
  pub reconcile_backup-IsTotal : (request : NamespacedName) → IsTotal (Backup.reconcile env request)
  unfolding Backup.reconcile
  reconcile_backup-IsTotal request =
      IsTotal-bind (perform (get_object a_backup request) (λ h. env.get_backup h request))
        (Backup.after_get env) (λ h. refl) got_backup-IsTotal

  delete_all-IsTotal : (items : List Backup) → IsTotal (Schedule.delete_all env items)
  unfolding Schedule.delete_all Schedule.deleted
  delete_all-IsTotal [] h = refl
  delete_all-IsTotal (b ∷ rest) h = ground (
    arith,
    delete_all-IsTotal rest
        (record { call = delete (backup b); error = env.answer h (delete (backup b)) } ∷ h),
  )

  prune-IsTotal :
      (s : ScheduledBackup) (keep : Option ℤ)
      → is_count keep ≡ true
      → IsTotal (Schedule.prune_to env s keep)
  unfolding Schedule.prune_to Schedule.delete_from
  prune-IsTotal s none c h = refl
  prune-IsTotal s (some (negsuc n)) c h = absurd (ground arith)
  prune-IsTotal s (some (pos keep)) c h =
      let ns = s.metadata.namespace in
      let listing : History =
        record {
          call = list_backups ns s.metadata.name;
          error = error_of (env.listed_backups h ns s.metadata.name);
        }
        ∷ h in
      elim (Result-cases (env.listed_backups h ns s.metadata.name)) [
        | inl (items, q) ↦ ground (arith, delete_all-IsTotal (Schedule.surplus keep items) listing)
        | inr (x, q) ↦ ground arith
      ]

  create_backup-IsTotal :
      (s : ScheduledBackup) (now : Time) → IsTotal (Schedule.create_backup env s now)
  unfolding Schedule.create_backup Schedule.backup_created
  create_backup-IsTotal s now h = ground arith

  create_backup_keeps :
      (s s' : ScheduledBackup) (now : Time) (h h' : History)
      → Schedule.create_backup env s now h ≡ (done s', h')
      → is_count s'.spec.keep ≡ is_count s.spec.keep
  unfolding Schedule.create_backup Schedule.backup_created
  create_backup_keeps s s' now h h' e = ground arith

  run_if_due-IsTotal :
      (s : ScheduledBackup) (now : Time) (is_due : Bool)
      → is_count s.spec.keep ≡ true
      → IsTotal (Schedule.run_if_due env s now is_due)
  unfolding Schedule.run_if_due Schedule.prune
  run_if_due-IsTotal s now false c h = refl
  run_if_due-IsTotal s now true c h =
      IsTotal-bind_at (Schedule.create_backup env s now) _ (create_backup-IsTotal s now)
        (λ s' h1 h2 e.
          IsTotal-bind (Schedule.prune_to env s' s'.spec.keep) _
            (prune-IsTotal s' s'.spec.keep (create_backup_keeps s s' now h1 h2 e ∙ c))
            (λ u h3. refl) h2)
        h

  tick_with-IsTotal :
      (s : ScheduledBackup) (r : Result (Time → Time))
      → is_count s.spec.keep ≡ true
      → IsTotal (Schedule.tick_with env s r)
  unfolding Schedule.tick_with
  tick_with-IsTotal s (err e) c h = refl
  tick_with-IsTotal s (ok next) c h =
      ground (arith, run_if_due-IsTotal s (env.now h) (Schedule.due s next (env.now h)) c h)

  scheduled-IsTotal :
      (s s' : ScheduledBackup) (result : CtrlResult)
      → IsTotal (
          ask env (patch_status (scheduled_backup s) (scheduled_backup s')) >>= λ answer.
          status_patched result answer)
  scheduled-IsTotal s s' result h = ground arith

  got_scheduled-IsTotal :
      (r : Result ScheduledBackup) → HasCount r → IsTotal (Schedule.after_get env r)
  unfolding Schedule.reconcile_object Schedule.tick
  got_scheduled-IsTotal (err e) c h = ground arith
  got_scheduled-IsTotal (ok s) c h =
      IsTotal-if {A = CtrlResult} (is_some s.metadata.deletion_timestamp) (pure no_requeue) _
        (λ h1. refl)
        (IsTotal-bind {B = CtrlResult}
          (Schedule.tick_with env s (env.lib.parse_standard s.spec.schedule)) _
          (tick_with-IsTotal s (env.lib.parse_standard s.spec.schedule) c)
          (λ (s', result). scheduled-IsTotal s s' result))
        h

  -- A reconcile of a ScheduledBackup whose count is not negative does not panic.
  pub reconcile_scheduled-IsTotal :
      HasCounts env → (request : NamespacedName) → IsTotal (Schedule.reconcile env request)
  unfolding Schedule.reconcile
  reconcile_scheduled-IsTotal counts request h =
      got_scheduled-IsTotal (env.get_scheduled_backup h request) (counts h request) _
