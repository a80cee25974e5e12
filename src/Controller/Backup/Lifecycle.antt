-- ===== src/Controller/Backup/Lifecycle.antt =====
-- internal/controller/backup_controller.go: the reconciles of one Backup, from its creation on.
pub mod Completed
use serenedb_operator.Api.Meta.{NamespacedName}
use serenedb_operator.Resources.Snapshot.{snapshot_outcome}
use serenedb_operator.Errors.{Result-cases, ok, err}
use serenedb_operator.Api.Core.{VolumeSnapshot}
use mathlib.Core.Path.{subst}
use serenedb_operator.Controller.Backup.Laws.{start_runs, start_phase, IsStarted, Started}
use serenedb_operator.Controller.Backup.{
  step_of, set_completed, set_failed, observed, on_snapshot, observe,
}
use serenedb_operator.Api.Backups.{
  phase_failed, phase_pending, phase_completed, phase_running, BackupStatus, Backup,
}
use serenedb_operator.Controller.Kube.{a_snapshot, get_object, History, Env}
use serenedb_operator.Controller.Backup.{start}
use serenedb_operator.Prelude.{
  ap, ◌∷◌, [], ◌≢◌, Bool, true, false, ◌∙◌, eq_iff, inr, inl, ◌==◌, Bool-cases, sym, arith, some,
  none, ◌⊎◌, ◌≡◌, String, refl,
}
use serenedb_operator.Controller.Op.{error_of, Outcome, CtrlResult, Op, done}

-- The phases behind the request of a snapshot.
abbrev pub HasRun : String → Type 0
HasRun p = (p ≡ phase_running) ⊎ (p ≡ phase_completed)

pub failed_ends : phase_failed ≢ phase_completed
failed_ends e = cc ((eq_iff phase_failed phase_completed).1 e)

pub running_ends : phase_running ≢ phase_completed
running_ends e = cc ((eq_iff phase_running phase_completed).1 e)

-- A step of a backup that did not run leaves it running where it leaves it behind the request.
pub runs : (q : String) → IsStarted q → HasRun q → q ≡ phase_running
runs q (inr (inl e)) run = e
runs q s (inl e) = e
runs q (inl e) (inr f) = absurd (cc ((eq_iff phase_pending phase_completed).1 (sym e ∙ f)))
runs q (inr (inr e)) (inr f) = absurd (cc ((eq_iff phase_failed phase_completed).1 (sym e ∙ f)))

module _ (env : Env) where
  -- What a Backup that was `first` may become: a step that ends well stores its status, and others may
  -- change anything but the status in between. A step that fails stores nothing.
  pub data Life (first : Backup) : Backup → Type 0 where
    born : Life first first
    edited : (b b' : Backup) → Life first b → b'.status ≡ b.status → Life first b'
    stepped :
        (b b' : Backup) (step : Op (Backup × CtrlResult)) (r : CtrlResult) (h h' : History)
        → Life first b
        → step_of env b ≡ some step
        → step h ≡ (done (b', r), h')
        → Life first b'

  -- A run of `start` on the way from the first to the last, of which the last one's status tells.
  abbrev pub Run : Backup → Backup → Type 0
  Run first last =
      (b b' : Backup) × (r : CtrlResult) × (h h' : History) × Life first b
      × (start env b h ≡ (done (b', r), h'))
      × Started env b' r h'
      × Life b' last
      × (b'.status.snapshot_name ≡ last.status.snapshot_name)
      × (b'.status.started_at ≡ last.status.started_at)

  pub observe_keeps :
      (b b' : Backup) (r : CtrlResult) (h h' : History)
      → observe env b h ≡ (done (b', r), h')
      → (b.status.snapshot_name ≡ b'.status.snapshot_name)
        × (b.status.started_at ≡ b'.status.started_at)
  unfolding observe on_snapshot observed set_failed set_completed
  observe_keeps b b' r h h' e = ground arith

  -- The look at the snapshot by which the status came to its end.
  abbrev pub Ready : Backup → BackupStatus → Type 0
  Ready first status =
      (b : Backup) × (s : VolumeSnapshot) × (h : History) × Life first b
      × (env.get_snapshot h
            (record { namespace = b.metadata.namespace; name = status.snapshot_name })
          ≡ ok s)
      × (snapshot_outcome s ≡ (true, ""))

  observed_completes :
      (b b' : Backup) (o : Bool × String) (r : CtrlResult) (h h' : History)
      → observed env b o h ≡ (done (b', r), h')
      → b.status.phase ≡ phase_running
      → b'.status.phase ≡ phase_completed
      → o ≡ (true, "")
  unfolding observed set_failed
  observed_completes b b' (ready, failure) r h h' e p q =
      ground (arith, eq_iff failure "", failed_ends, running_ends)

  pub observe_completes :
      (b b' : Backup) (r : CtrlResult) (h h' : History)
      → observe env b h ≡ (done (b', r), h')
      → b.status.phase ≡ phase_running
      → b'.status.phase ≡ phase_completed
      → (s : VolumeSnapshot) × (env.get_snapshot h
            (record { namespace = b.metadata.namespace; name = b.status.snapshot_name })
          ≡ ok s)
        × (snapshot_outcome s ≡ (true, ""))
  unfolding observe on_snapshot set_failed
  observe_completes b b' r h h' e p q =
      let key : NamespacedName = record {
        namespace = b.metadata.namespace;
        name = b.status.snapshot_name;
      } in
      let h1 : History =
        record { call = get_object a_snapshot key; error = error_of (env.get_snapshot h key) }
        ∷ h in
      elim (Result-cases (env.get_snapshot h key)) [
        | inl (s, g) ↦ (
          s,
          g,
          observed_completes b b' (snapshot_outcome s) r
              (record { call = get_object a_snapshot key; error = none } ∷ h) h' (ground arith) p q,
        )
        | inr (x, g) ↦ absurd (ground (arith, failed_ends, running_ends))
      ]

  -- Which function the phase selects, and where it ends.
  pub observed_step :
      (b : Backup) (step : Op (Backup × CtrlResult)) (o : Outcome (Backup × CtrlResult) × History)
      (h : History)
      → step_of env b ≡ some step
      → step h ≡ o
      → (b.status.phase == phase_running) ≡ true
      → observe env b h ≡ o
  unfolding step_of
  observed_step b step o h chosen taken t = ground arith

  pub started_step :
      (b : Backup) (step : Op (Backup × CtrlResult)) (o : Outcome (Backup × CtrlResult) × History)
      (h : History)
      → step_of env b ≡ some step
      → step h ≡ o
      → (b.status.phase == phase_running) ≡ false
      → start env b h ≡ o
  unfolding step_of
  started_step b step o h chosen taken t = ground arith
