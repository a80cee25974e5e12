-- ===== src/Controller/Backup/Lifecycle/Completed.antt =====
-- internal/controller/backup_controller.go: what stands behind a completed Backup.
use mathlib.Core.Path.{subst}
use serenedb_operator.Controller.Backup.Lifecycle.{
  started_step, observe_completes, observed_step, failed_ends, running_ends, Ready, runs,
  observe_keeps, Run, Life, HasRun,
}
use serenedb_operator.Api.Backups.{phase_running, phase_pending, phase_completed, Backup}
use serenedb_operator.Controller.Kube.{History, Env}
use serenedb_operator.Prelude.{
  ◌==◌, eq_iff, ap, Bool-cases, ◌∙◌, sym, inr, inl, ◌≢◌, ◌≡◌, String, refl,
}
use serenedb_operator.Controller.Op.{CtrlResult, done}
use serenedb_operator.Controller.Backup.Laws.{start_runs, start_phase, IsStarted}
use serenedb_operator.Controller.Backup.{start}

module _ (env : Env) where
  module _ (first : Backup) (new : ¬ HasRun first.status.phase) where
    Run-goes_on :
        (b b' : Backup)
        → Run env first b
        → ((c : Backup) → Life env c b → Life env c b')
        → (b.status.snapshot_name ≡ b'.status.snapshot_name)
        → (b.status.started_at ≡ b'.status.started_at)
        → Run env first b'
    Run-goes_on b b' (c, c', q, k, k', life, ran, started, since, name, time) on same_name
          same_time =
        (c, c', q, k, k', life, ran, started, on c' since, name ∙ same_name, time ∙ same_time)

    started-Run :
        (b b' : Backup) (r : CtrlResult) (h h' : History)
        → Life env first b
        → start env b h ≡ (done (b', r), h')
        → HasRun b'.status.phase
        → Run env first b'
    started-Run b b' r h h' life e run =
        let running = runs b'.status.phase (start_phase env b b' r h h' e) run in
        (b, b', r, h, h', life, e, start_runs env b b' r h h' e running, Life.born, refl, refl)

    has_run : (b : Backup) → Life env first b → HasRun b.status.phase → Run env first b
    has_run _ Life.born run = absurd (new run)
    has_run _ (Life.edited b b' life same) run =
        Run-goes_on b b' (has_run b life (subst (λ s. HasRun s.phase) same run))
          (λ c on. Life.edited b b' on same) (ap (λ s. s.snapshot_name) (sym same))
          (ap (λ s. s.started_at) (sym same))
    has_run _ (Life.stepped b b' step r h h' life chosen taken) run =
        elim (Bool-cases (b.status.phase == phase_running)) [
          | inl t ↦
              let kept =
                observe_keeps env b b' r h h'
                  (observed_step env b step (done (b', r), h') h chosen taken t) in
              Run-goes_on b b' (has_run b life (inl ((eq_iff b.status.phase phase_running).0 t)))
                (λ c on. Life.stepped b b' step r h h' on chosen taken) kept.0 kept.1
          | inr t ↦
              started-Run b b' r h h' life
                (started_step env b step (done (b', r), h') h chosen taken t) run
        ]

    started_open : (q : String) → IsStarted q → q ≢ phase_completed
    started_open q (inl e) f = cc ((eq_iff phase_pending phase_completed).1 (sym e ∙ f))
    started_open q (inr (inl e)) f = running_ends (sym e ∙ f)
    started_open q (inr (inr e)) f = failed_ends (sym e ∙ f)

    has_ended :
        (b : Backup)
        → Life env first b
        → b.status.phase ≡ phase_completed
        → Ready env first b.status
    has_ended _ Life.born end = absurd (new (inr end))
    has_ended _ (Life.edited b b' life same) end =
        subst (Ready env first) (sym same) (has_ended b life (ap (λ s. s.phase) (sym same) ∙ end))
    has_ended _ (Life.stepped b b' step r h h' life chosen taken) end =
        elim (Bool-cases (b.status.phase == phase_running)) [
          | inl t ↦
              let e = observed_step env b step (done (b', r), h') h chosen taken t in
              let kept = observe_keeps env b b' r h h' e in
              let p = (eq_iff b.status.phase phase_running).0 t in
              let seen = observe_completes env b b' r h h' e p end in
              (
                b,
                seen.0,
                h,
                life,
                (ap
                      (λ n.
                        env.get_snapshot h (record { namespace = b.metadata.namespace; name = n }))
                      (sym kept.0)
                    ∙ seen.1),
                seen.2,
              )
          | inr t ↦ absurd (
              started_open b'.status.phase
                (start_phase env b b' r h h'
                  (started_step env b step (done (b', r), h') h chosen taken t))
                end)
        ]

  -- Take a Backup that was not yet Running or Completed when it was first seen, and what it became by
  -- steps that ended well, whatever others did to all but its status in between. Where it is
  -- Completed, a run of `start` on the way ran a CHECKPOINT that succeeded and then asked for the
  -- creation of a snapshot; the status still has that snapshot's name and the time of its start; and
  -- the snapshot of that name was read on the way, as ready and without an error.
  pub completed_has_snapshot :
      (first b : Backup)
      → ¬ HasRun first.status.phase
      → Life env first b
      → b.status.phase ≡ phase_completed
      → Run env first b × Ready env first b.status
  completed_has_snapshot first b new life end =
      (has_run first new b life (inr end), has_ended first new b life end)
