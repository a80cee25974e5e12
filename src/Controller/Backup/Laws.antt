-- ===== src/Controller/Backup/Laws.antt =====
-- internal/controller/backup_controller.go: the phases of a Backup.
use serenedb_operator.Prelude.{
  ◌≡◌, ◌≢◌, ◌⊎◌, inl, inr, refl, String, Option, none, some, ◌∷◌, arith, eq_iff, ◌==◌, ◌||◌,
  Bool-cases,
}
use serenedb_operator.Errors.{Err, Result, ok, err, Result-cases}
use serenedb_operator.Api.Meta.{NamespacedName}
use serenedb_operator.Api.Core.{VolumeSnapshot}
use serenedb_operator.Api.SereneDb.{SereneDb}
use serenedb_operator.Api.Backups.{
  Backup, phase_pending, phase_running, phase_completed, phase_failed,
}
use serenedb_operator.Controller.Kube.{
  Env, History, get_object, a_serenedb, exec, create, close, snapshot,
}
use serenedb_operator.Controller.Op.{
  Op, Outcome, error_of, as_result, done, stopped, failed, panicked, CtrlResult,
}
use serenedb_operator.Controller.Session.{open_session}
use serenedb_operator.Resources.Snapshot.{volume_snapshot, data_claim_name}
use serenedb_operator.Controller.Backup.{
  step_of, start, observe, observed, on_snapshot, on_cluster, on_session, checkpointed,
  request_snapshot, created, set_pending, set_failed, set_running, set_completed,
  snapshot_poll_interval,
}

-- How a step may change the phase: a backup waits, starts or fails until it runs; then it goes on,
-- completes or fails.
pub data Moves (p q : String) : Type 0 where
  waits : p ≢ phase_running → q ≡ phase_pending → Moves p q
  starts : p ≢ phase_running → q ≡ phase_running → Moves p q
  fails : q ≡ phase_failed → Moves p q
  goes_on : p ≡ phase_running → q ≡ phase_running → Moves p q
  completes : p ≡ phase_running → q ≡ phase_completed → Moves p q

-- The phases that a step of a backup that does not run may end in.
abbrev pub IsStarted : String → Type 0
IsStarted q = (q ≡ phase_pending) ⊎ (q ≡ phase_running) ⊎ (q ≡ phase_failed)

started_Moves : (p q : String) → p ≢ phase_running → IsStarted q → Moves p q
started_Moves p q n (inl e) = Moves.waits n e
started_Moves p q n (inr (inl e)) = Moves.starts n e
started_Moves p q n (inr (inr e)) = Moves.fails e

-- A running backup stays in its phase, completes or fails.
abbrev IsObserved : String → String → Type 0
IsObserved p q = (q ≡ p) ⊎ (q ≡ phase_completed) ⊎ (q ≡ phase_failed)

observed_Moves : (p q : String) → p ≡ phase_running → IsObserved p q → Moves p q
observed_Moves p q n (inl e) = Moves.goes_on n (cc (e, n))
observed_Moves p q n (inr (inl e)) = Moves.completes n e
observed_Moves p q n (inr (inr e)) = Moves.fails e

pub pending_lem : phase_pending ≢ phase_running
pending_lem e = cc ((eq_iff phase_pending phase_running).1 e)

failed_lem : phase_failed ≢ phase_running
failed_lem e = cc ((eq_iff phase_failed phase_running).1 e)

module _ (env : Env) where
  pub start_phase :
      (b b' : Backup) (r : CtrlResult) (h h' : History)
      → start env b h ≡ (done (b', r), h')
      → IsStarted b'.status.phase
  unfolding start on_cluster set_failed set_pending on_session checkpointed request_snapshot created
      set_running
  start_phase b b' r h h' e = ground arith

  observe_phase :
      (b b' : Backup) (r : CtrlResult) (h h' : History)
      → observe env b h ≡ (done (b', r), h')
      → IsObserved b.status.phase b'.status.phase
  unfolding observe on_snapshot observed set_failed set_completed
  observe_phase b b' r h h' e = ground arith

  -- A step of a backup moves its phase by the state machine: it never leaves `Completed` or `Failed`,
  -- and `Completed` is reached from `Running` only.
  pub step_of-Moves :
      (b b' : Backup) (step : Op (Backup × CtrlResult)) (r : CtrlResult) (h h' : History)
      → step_of env b ≡ some step
      → step h ≡ (done (b', r), h')
      → (b.status.phase ≢ phase_completed)
        × (b.status.phase ≢ phase_failed)
        × Moves b.status.phase b'.status.phase
  unfolding step_of
  step_of-Moves b b' step r h h' e f =
      let p = b.status.phase in
      elim (Bool-cases (p == phase_completed || p == phase_failed)) [
        | inl t ↦ absurd (ground arith)
        | inr t ↦ (
          ground (arith, eq_iff p phase_completed),
          ground (arith, eq_iff p phase_failed),
          elim (Bool-cases (p == phase_running)) [
            | inl u ↦
                observed_Moves p b'.status.phase ((eq_iff p phase_running).0 u)
                  (observe_phase b b' r h h' (ground arith))
            | inr u ↦
                started_Moves p b'.status.phase (ground (arith, eq_iff p phase_running))
                  (start_phase b b' r h h' (ground arith))
          ],
        )
      ]

  -- What a snapshot request adds to the history where the backup runs behind it.
  abbrev pub Requested : Backup → CtrlResult → (h h' : History) → Type 0
  Requested b' r h h' =
      (s : VolumeSnapshot) × (failure : Option Err) × (b'.status.snapshot_name ≡ s.metadata.name)
      × (r ≡ snapshot_poll_interval)
      × (h' ≡ record { call = create (snapshot s); error = failure } ∷ h)

  request_runs :
      (b b' : Backup) (db : SereneDb) (r : CtrlResult) (h h' : History)
      → request_snapshot env b db h ≡ (done (b', r), h')
      → b'.status.phase ≡ phase_running
      → Requested b' r h h'
  unfolding request_snapshot created set_failed set_running
  request_runs b b' db r h h' e f =
      let base = volume_snapshot b (data_claim_name db) in
      elim (Result-cases (env.lib.set_controller_reference b.metadata base.metadata)) [
        | inl (m, q) ↦
            let s : VolumeSnapshot = record base { metadata = m } in
            (
              s,
              error_of (as_result (env.answer h (create (snapshot s)))),
              ground (arith, failed_lem, pending_lem),
              ground (arith, failed_lem, pending_lem),
              ground (arith, failed_lem, pending_lem),
            )
        | inr (x, q) ↦ absurd (ground (arith, failed_lem, pending_lem))
      ]

  checkpointed_runs :
      (b b' : Backup) (db : SereneDb) (a : Result (Unit {0})) (r : CtrlResult) (h h' : History)
      → checkpointed env b db a h ≡ (done (b', r), h')
      → b'.status.phase ≡ phase_running
      → (a ≡ ok tt) × (Requested b' r h h')
  unfolding checkpointed set_pending
  checkpointed_runs b b' db (ok u) r h h' e f = (refl, request_runs b b' db r h h' e f)
  checkpointed_runs b b' db (err x) r h h' e f = absurd (ground (arith, failed_lem, pending_lem))

  -- The end of a backup that runs behind a history.
  abbrev pub Started : Backup → CtrlResult → (h' : History) → Type 0
  Started b' r h' =
      (h1 h2 : History) × (Requested b' r (record { call = exec "CHECKPOINT"; error = none } ∷ h1)
        h2)
      × (h' ≡ record { call = close; error = none } ∷ h2)

  on_session_runs :
      (b b' : Backup) (db : SereneDb) (o : Outcome (Unit {0})) (r : CtrlResult) (h h' : History)
      → on_session env b db o h ≡ (done (b', r), h')
      → b'.status.phase ≡ phase_running
      → Started b' r h'
  unfolding on_session set_pending
  on_session_runs b b' db (done u) r h h' e f =
      let answer = as_result (env.answer h (exec "CHECKPOINT")) in
      let h1 = record { call = exec "CHECKPOINT"; error = error_of answer } ∷ h in
      let h2 = (checkpointed env b db answer h1).1 in
      let (good, requested) =
        checkpointed_runs b b' db answer r h1 h2 (ground (arith, failed_lem, pending_lem)) f in
      (h, h2, ground (arith, good, requested), ground arith)
  on_session_runs b b' db (stopped x) r h h' e f = absurd (ground (arith, failed_lem, pending_lem))
  on_session_runs b b' db (failed x) r h h' e f = absurd (ground (arith, failed_lem, pending_lem))
  on_session_runs b b' db panicked r h h' e f = absurd (ground (arith, failed_lem, pending_lem))

  -- A start that leaves the backup running has run a CHECKPOINT that succeeded, then asked for the
  -- creation of a snapshot, whose name is in the status, and then closed the session.
  pub start_runs :
      (b b' : Backup) (r : CtrlResult) (h h' : History)
      → start env b h ≡ (done (b', r), h')
      → b'.status.phase ≡ phase_running
      → Started b' r h'
  unfolding start on_cluster set_failed set_pending
  start_runs b b' r h h' e f =
      let key : NamespacedName = record {
        namespace = b.metadata.namespace;
        name = b.spec.cluster.name;
      } in
      let h1 : History = record { call = get_object a_serenedb key; error = none } ∷ h in
      let (o, h2) = open_session env b.metadata.namespace b.spec.cluster.name h1 in
      elim (Result-cases (env.get_serenedb h key)) [
        | inl (db, q) ↦
            on_session_runs b b' db o r h2 h' (ground (arith, failed_lem, pending_lem)) f
        | inr (x, q) ↦ absurd (ground (arith, failed_lem, pending_lem))
      ]
