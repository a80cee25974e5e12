-- ===== src/Controller/Schedule/Ticks.antt =====
-- internal/controller/scheduledbackup_controller.go: one tick, and what is due behind it.
use serenedb_operator.Prelude.Int.{negsuc, pos, ℤ}
use serenedb_operator.Api.Meta.{condition_true, Time}
use serenedb_operator.Prelude.{
  none, ◌<>◌, sym, Option-cases, suc, ◌≡◌, refl, ap, ◌∙◌, Bool, true, false, some, List, [], ◌∷◌,
  arith, if◌then◌else◌, inl, inr,
}
use serenedb_operator.Errors.{ok, Result-cases}
use serenedb_operator.Api.Backups.{ScheduledBackup, Backup}
use serenedb_operator.Controller.Kube.{list_backups, backup, delete, Env, History, Call, create}
use serenedb_operator.Controller.Op.{◌>>=◌, pure, Outcome, done, CtrlResult}
use serenedb_operator.Controller.Trace.{count_of, bind_done, Quiet}
use serenedb_operator.Controller.Schedule.{
  sub_time, add_second, tick_with, run_if_due, create_backup, backup_created, due, due_since,
  ready_as, with_next, prune, prune_to, delete_from, delete_all, deleted, surplus, not_before,
}

abbrev pub is_create : Call → Bool
is_create (create o) = true
is_create _ = false

abbrev pub value_or : {A : Type 0} → A → Outcome A → A
value_or a (done b) = b
value_or a _ = a

module _ (env : Env) where
  delete_all-Quiet : (items : List Backup) → Quiet is_create (delete_all env items)
  unfolding delete_all deleted count_of
  delete_all-Quiet [] h = refl
  delete_all-Quiet (b ∷ rest) h = ground (
    arith,
    delete_all-Quiet rest
        (record { call = delete (backup b); error = env.answer h (delete (backup b)) } ∷ h),
  )

  delete_from-Quiet :
      (keep : ℤ) (items : List Backup) → Quiet is_create (delete_from env keep items)
  unfolding delete_from
  delete_from-Quiet (pos keep) items h = delete_all-Quiet (surplus keep items) h
  delete_from-Quiet (negsuc n) items h = refl

  prune-Quiet : (s : ScheduledBackup) → Quiet is_create (prune env s)
  unfolding prune prune_to delete_from count_of
  prune-Quiet s h = elim (Option-cases s.spec.keep) [
    | inl e ↦ ground arith
    | inr (keep, e) ↦
        let ns = s.metadata.namespace in
        let listing : History =
          record { call = list_backups ns s.metadata.name; error = none } ∷ h in
        elim (Result-cases (env.listed_backups h ns s.metadata.name)) [
          | inl (items, q) ↦ rw (e, q) (delete_from-Quiet keep items listing)
          | inr (x, q) ↦ rw (e, q) refl
        ]
  ]

  created_once :
      (s s' : ScheduledBackup) (now : Time) (h h' : History)
      → create_backup env s now h ≡ (done s', h')
      → (count_of is_create h' ≡ suc (count_of is_create h))
        × (s'.status.last_schedule_time ≡ some now)
  unfolding create_backup backup_created count_of
  created_once s s' now h h' e = ground arith

  due_run :
      (s s' : ScheduledBackup) (now : Time) (h h' : History)
      → run_if_due env s now true h ≡ (done s', h')
      → (count_of is_create h' ≡ suc (count_of is_create h))
        × (s'.status.last_schedule_time ≡ some now)
  unfolding run_if_due
  due_run s s' now h h' e =
      let (made, h1, c, f) = bind_done (create_backup env s now) _ s' h h' e in
      let (u, h2, p, g) = bind_done (prune env made) _ s' h1 h' f in
      let (n, last) = created_once s made now h h1 c in
      let same : made ≡ s' = ap (λ o. value_or made o.0) g in
      let count : count_of is_create h2 ≡ suc (count_of is_create h) =
        sym (ap (λ o. count_of is_create o.1) p) ∙ prune-Quiet made h1 ∙ n in
      (
        sym (ap (λ o. count_of is_create o.1) g) ∙ count,
        sym (ap (λ b. b.status.last_schedule_time) same) ∙ last,
      )

  -- The schedule that a tick goes on with, and what it has created.
  abbrev pub Ran : (is_due : Bool) → (s s' : ScheduledBackup) → Time → (h h' : History) → Type 0
  Ran true s s' now h h' =
      (count_of is_create h' ≡ suc (count_of is_create h))
      × (s'.status.last_schedule_time ≡ some now)
  Ran false s s' now h h' = (h' ≡ h) × (s' ≡ s)

  run_if_due-Ran :
      (is_due : Bool) (s s' : ScheduledBackup) (now : Time) (h h' : History)
      → run_if_due env s now is_due h ≡ (done s', h')
      → Ran is_due s s' now h h'
  unfolding run_if_due
  run_if_due-Ran true s s' now h h' e = due_run s s' now h h' e
  run_if_due-Ran false s s' now h h' e = (sym (ap (λ o. o.1) e), sym (ap (λ o. value_or s o.0) e))

  due_later :
      (is_due : Bool) (s s' : ScheduledBackup) (next : Time → Time) (now t : Time) (h h' : History)
      → Ran is_due s s' now h h'
      → due s' next t ≡ (if is_due then not_before t (next now) else due s next t)
  unfolding due due_since
  due_later true s s' next now t h h' (n, last) = rw last refl
  due_later false s s' next now t h h' (same, kept) = ap (λ b. due b next t) kept

  Ran-count :
      (is_due : Bool) (s s' : ScheduledBackup) (now : Time) (h h' : History)
      → Ran is_due s s' now h h'
      → count_of is_create h'
        ≡ (if is_due then suc (count_of is_create h) else count_of is_create h)
  Ran-count true s s' now h h' (n, last) = n
  Ran-count false s s' now h h' (same, kept) = ap (count_of is_create) same

  -- The end of a tick.
  abbrev finished : (Time → Time) → Time → ScheduledBackup → ScheduledBackup × CtrlResult
  finished next now s = (
    ready_as env (with_next s (some (next now))) condition_true "Scheduled"
        ("next backup at " <> env.lib.format_rfc3339 (next now)),
    record { requeue_after = add_second (sub_time (next now) now) },
  )

  due-finished :
      (s : ScheduledBackup) (next : Time → Time) (now t : Time)
      → due (finished next now s).0 next t ≡ due s next t
  unfolding due due_since ready_as
  due-finished s next now t = refl

  active_tick :
      (s : ScheduledBackup) (next : Time → Time) (h : History)
      → s.spec.suspend ≡ false
      → tick_with env s (ok next) h
        ≡ (run_if_due env s (env.now h) (due s next (env.now h)) >>= λ s'.
              pure (finished next (env.now h) s'))
            h
  unfolding tick_with
  active_tick s next h active = rw active refl

  -- A tick that comes to its end, of a schedule that parses and is not suspended, creates one Backup
  -- where one is due and none otherwise; behind it a Backup is due from the schedule's next time
  -- on if one was created, and at the times as before if none was.
  pub tick_with_creates :
      (s s' : ScheduledBackup) (next : Time → Time) (r : CtrlResult) (h h' : History) (t : Time)
      → s.spec.suspend ≡ false
      → tick_with env s (ok next) h ≡ (done (s', r), h')
      → let is_due = due s next (env.now h) in
        (count_of is_create h'
          ≡ (if is_due then suc (count_of is_create h) else count_of is_create h))
        × (due s' next t ≡ (if is_due then not_before t (next (env.now h)) else due s next t))
  tick_with_creates s s' next r h h' t active e =
      let now = env.now h in
      let (s1, h1, run, g) =
        bind_done (run_if_due env s now (due s next now)) (λ x. pure (finished next now x)) (s', r)
          h h' (sym (active_tick s next h active) ∙ e) in
      let ran = run_if_due-Ran (due s next now) s s1 now h h1 run in
      let last : (finished next now s1).0 ≡ s' =
        ap (λ o. (value_or (finished next now s1) o.0).0) g in
      (
        sym (ap (λ o. count_of is_create o.1) g) ∙ Ran-count (due s next now) s s1 now h h1 ran,
        ap (λ b. due b next t) (sym last)
            ∙ due-finished s1 next now t
            ∙ due_later (due s next now) s s1 next now t h h1 ran,
      )
