-- ===== src/Manager/Calls.antt =====
-- What a row of calls to the manager leaves behind: how often `Start` was called, how many calls were
-- refused, and which controllers and checks were taken.
use serenedb_operator.Controller.Kube.{a_snapshot}
use serenedb_operator.Manager.Setup.{
  setup_controllers, backup_controller, setup_server_secret, setup_serenedb, setup_scheduled_backup,
  setup_role, setup_database, setup_backup, complete_backup,
}
use mathlib.Core.Path.{sym}
use serenedb_operator.Prelude.{
  ◌⊎◌, ℕ, suc, ◌≡◌, refl, Bool, true, false, Option, none, some, List, [], ◌∷◌, ◌++◌, String,
  Option-cases, inl, inr, append_assoc, ap, ◌∙◌, if◌then◌else◌,
}
use serenedb_operator.Errors.{Err}
use serenedb_operator.Manager.{
  Manager, Call, Setup, Trace, ask, go_on, ◌and_then◌, nothing, complete, add_healthz_check,
  add_readyz_check, start, rest_mapping,
}

abbrev pub is_start : Call → Bool
is_start start = true
is_start _ = false

-- The mapping of a kind is only asked for; its error is no failure.
abbrev pub is_question : Call → Bool
is_question (rest_mapping k) = true
is_question _ = false

abbrev pub is_refused : Option Err → Bool
is_refused none = false
is_refused (some e) = true

unfoldable pub starts : Trace → ℕ
starts [] = 0
starts (e ∷ t) = if is_start e.call then suc (starts t) else starts t

unfoldable pub refused : Trace → ℕ
refused [] = 0
refused (e ∷ t) =
    if is_refused e.error
    then (if is_question e.call then refused t else suc (refused t))
    else refused t

abbrev pub note : Call → List String
note (complete c) = c.name ∷ []
note (add_healthz_check s) = s ∷ []
note (add_readyz_check s) = s ∷ []
note _ = []

-- The names of the controllers and checks that were taken, the latest first.
unfoldable pub noted : Trace → List String
noted [] = []
noted (e ∷ t) = if is_refused e.error then noted t else note e.call ++ noted t

abbrev Told : List String → Trace → Option Err → Trace → Type 0
Told names t none t1 = (refused t1 ≡ refused t) × (noted t1 ≡ names ++ noted t)
Told names t (some e) t1 = refused t1 ≡ suc (refused t)

-- The operation does not start the manager; where it ends well no call was refused and the names were
-- taken; where it fails one call was refused.
abbrev pub Tells : Setup → List String → Type 0
Tells op names = (t : Trace) → (starts (op t).1 ≡ starts t) × Told names t (op t).0 (op t).1

pub nothing-Tells : Tells nothing []
nothing-Tells t = (refl, (refl, refl))

module _ (m : Manager) where
  pub ask-Tells : (c : Call) → is_start c ≡ false → is_question c ≡ false → Tells (ask m c) (note c)
  unfolding starts refused noted
  ask-Tells c s q t = elim (Option-cases (m t c)) [
    | inl e ↦ rw (e, s) (refl, (refl, refl))
    | inr (x, e) ↦ rw (e, s, q) (refl, refl)
  ]

Told-trans :
    (xs ys : List String) (t t1 t2 : Trace) (e : Option Err)
    → Told xs t none t1
    → Told ys t1 e t2
    → Told (ys ++ xs) t e t2
Told-trans xs ys t t1 t2 none (r, n) (r', n') =
    (r' ∙ r, n' ∙ ap (λ z. ys ++ z) n ∙ sym (append_assoc ys xs (noted t)))
Told-trans xs ys t t1 t2 (some x) (r, n) r' = r' ∙ ap suc r

go_on-Tells :
    (g : Setup) (xs ys : List String) (e : Option Err) (t t1 : Trace)
    → Tells g ys
    → starts t1 ≡ starts t
    → Told xs t e t1
    → (starts (go_on e g t1).1 ≡ starts t) × Told (ys ++ xs) t (go_on e g t1).0 (go_on e g t1).1
go_on-Tells g xs ys none t t1 tg s told =
    let (s', told') = tg t1 in (s' ∙ s, Told-trans xs ys t t1 (g t1).1 (g t1).0 told told')
go_on-Tells g xs ys (some x) t t1 tg s told = (s, told)

pub and_then-Tells :
    (f g : Setup) (xs ys : List String) → Tells f xs → Tells g ys → Tells (f and_then g) (ys ++ xs)
and_then-Tells f g xs ys tf tg t =
    let (s, told) = tf t in go_on-Tells g xs ys (f t).0 t (f t).1 tg s told

-- The operation comes to its call of `Start`, which is its last, behind calls that were all taken, the
-- names among them; or it fails before, at the one call that was refused.
abbrev pub Starts : Setup → List String → Type 0
Starts op names =
    (t : Trace)
    → ((starts (op t).1 ≡ starts t)
        × (refused (op t).1 ≡ suc (refused t))
        × (is_refused (op t).0 ≡ true))
      ⊎ ((h : Trace) × (e : Option Err) × ((op t).1 ≡ record { call = start; error = e } ∷ h)
          × ((op t).0 ≡ e)
          × (starts h ≡ starts t)
          × (refused h ≡ refused t)
          × (noted h ≡ names ++ noted t))

pub ask-start-Starts : (m : Manager) → Starts (ask m start) []
ask-start-Starts m t = inr (t, m t start, refl, refl, refl, refl, refl)

go_on-Starts :
    (g : Setup) (xs ys : List String) (e : Option Err) (t t1 : Trace)
    → Starts g ys
    → starts t1 ≡ starts t
    → Told xs t e t1
    → ((starts (go_on e g t1).1 ≡ starts t)
        × (refused (go_on e g t1).1 ≡ suc (refused t))
        × (is_refused (go_on e g t1).0 ≡ true))
      ⊎ ((h : Trace) × (x : Option Err) × ((go_on e g t1).1
            ≡ record { call = start; error = x } ∷ h)
          × ((go_on e g t1).0 ≡ x)
          × (starts h ≡ starts t)
          × (refused h ≡ refused t)
          × (noted h ≡ (ys ++ xs) ++ noted t))
go_on-Starts g xs ys (some x) t t1 sg s told = inl (s, told, refl)
go_on-Starts g xs ys none t t1 sg s (r, n) = elim (sg t1) [
  | inl (s', r', f) ↦ inl (s' ∙ s, r' ∙ ap suc r, f)
  | inr (h, x, p, q, s', r', n') ↦
      inr
        (h, x, p, q, s' ∙ s, r' ∙ r, n' ∙ ap (λ z. ys ++ z) n ∙ sym (append_assoc ys xs (noted t)))
]

pub and_then-Starts :
    (f g : Setup) (xs ys : List String)
    → Tells f xs
    → Starts g ys
    → Starts (f and_then g) (ys ++ xs)
and_then-Starts f g xs ys tf sg t =
    let (s, told) = tf t in go_on-Starts g xs ys (f t).0 t (f t).1 sg s told

-- The controllers, the latest first.
abbrev pub all_controllers : List String
all_controllers =
    "scheduledbackup" ∷ "backup" ∷ "serversecret" ∷ "databaserole" ∷ "database" ∷ "serenedb" ∷ []

-- The `SetupWithManager` methods.
module _ (m : Manager) where
  pub setup_serenedb-Tells : Tells (setup_serenedb m) ("serenedb" ∷ [])
  unfolding setup_serenedb
  setup_serenedb-Tells = ask-Tells m _ refl refl

  pub setup_database-Tells : Tells (setup_database m) ("database" ∷ [])
  unfolding setup_database
  setup_database-Tells =
      and_then-Tells _ _ [] ("database" ∷ []) (ask-Tells m _ refl refl) (ask-Tells m _ refl refl)

  pub setup_role-Tells : Tells (setup_role m) ("databaserole" ∷ [])
  unfolding setup_role
  setup_role-Tells = and_then-Tells _ _ [] ("databaserole" ∷ []) (ask-Tells m _ refl refl) (
      and_then-Tells _ _ [] ("databaserole" ∷ []) (ask-Tells m _ refl refl)
        (ask-Tells m _ refl refl))

  pub setup_server_secret-Tells : Tells (setup_server_secret m) ("serversecret" ∷ [])
  unfolding setup_server_secret
  setup_server_secret-Tells =
      and_then-Tells _ _ [] ("serversecret" ∷ []) (ask-Tells m _ refl refl) (
        and_then-Tells _ _ [] ("serversecret" ∷ []) (ask-Tells m _ refl refl)
          (ask-Tells m _ refl refl))

  complete_backup-Tells : Tells (complete_backup m) ("backup" ∷ [])
  unfolding starts refused noted
  complete_backup-Tells t = elim (Option-cases (m t (rest_mapping a_snapshot))) [
    | inl e ↦ rw e (ask-Tells m (complete (backup_controller true)) refl refl _)
    | inr (x, e) ↦ rw e (ask-Tells m (complete (backup_controller false)) refl refl _)
  ]

  pub setup_backup-Tells : Tells (setup_backup m) ("backup" ∷ [])
  unfolding setup_backup
  setup_backup-Tells =
      and_then-Tells _ _ [] ("backup" ∷ []) (ask-Tells m _ refl refl) complete_backup-Tells

  pub setup_scheduled_backup-Tells : Tells (setup_scheduled_backup m) ("scheduledbackup" ∷ [])
  unfolding setup_scheduled_backup
  setup_scheduled_backup-Tells = ask-Tells m _ refl refl

  pub setup_controllers-Tells : Tells (setup_controllers m) all_controllers
  unfolding setup_controllers
  setup_controllers-Tells =
      and_then-Tells _ _ ("serenedb" ∷ [])
        ("scheduledbackup" ∷ "backup" ∷ "serversecret" ∷ "databaserole" ∷ "database" ∷ [])
        setup_serenedb-Tells
        (and_then-Tells _ _ ("database" ∷ [])
          ("scheduledbackup" ∷ "backup" ∷ "serversecret" ∷ "databaserole" ∷ []) setup_database-Tells
          (and_then-Tells _ _ ("databaserole" ∷ [])
            ("scheduledbackup" ∷ "backup" ∷ "serversecret" ∷ []) setup_role-Tells
            (and_then-Tells _ _ ("serversecret" ∷ []) ("scheduledbackup" ∷ "backup" ∷ [])
              setup_server_secret-Tells
              (and_then-Tells _ _ ("backup" ∷ []) ("scheduledbackup" ∷ []) setup_backup-Tells
                setup_scheduled_backup-Tells))))
