-- ===== src/Manager/Registered.antt =====
-- Which calls a manager has taken when the controllers are set up.
use serenedb_operator.Controller.Kube.{a_server_secret, a_role, a_database, a_backup, Kind}
use serenedb_operator.Errors.{Err}
use serenedb_operator.Prelude.{
  Bool, drop, take, All-map, ◌≡◌, refl, Option, none, some, List, [], ◌∷◌, ◌++◌, ◌⊎◌, inl, inr, All,
  All-append, arith,
}
use serenedb_operator.Manager.{
  Extract, index_field, complete, Manager, Call, Setup, Trace, ask, go_on, ◌and_then◌,
}
use serenedb_operator.Manager.Setup.{
  backup_controller, setup_controllers, secret_of_server_secret, secret_of_role,
  cluster_of_server_secret, cluster_of_role, cluster_of_database, cluster_of_backup, secret_index,
  cluster_index, server_secret_controller, serenedb_controller, scheduled_backup_controller,
  role_controller, database_controller, setup_serenedb, setup_database, setup_role,
  setup_server_secret, setup_backup, complete_backup, setup_scheduled_backup,
}

-- The call was made and taken.
abbrev pub Registered : Call → Trace → Type 0
Registered c [] = ⊥
Registered c (e ∷ t) = ((e.call ≡ c) × (e.error ≡ none)) ⊎ Registered c t

-- The operation forgets no call, and where it ends well it has made these.
abbrev pub Enters : Setup → List Call → Type 0
Enters op calls =
    ((t : Trace) (c : Call) → Registered c t → Registered c (op t).1)
    × ((t : Trace) → (op t).0 ≡ none → All (λ c. Registered c (op t).1) calls)

module _ (m : Manager) where
  pub ask-Enters : (c : Call) → Enters (ask m c) (c ∷ [])
  ask-Enters c = (λ t d r. inr r, λ t e. (inl (refl, e), tt))

module _ (f g : Setup) (xs ys : List Call) (ef : Enters f xs) (eg : Enters g ys) where
  go_on_keeps :
      (e : Option Err) (t : Trace) (c : Call) → Registered c t → Registered c (go_on e g t).1
  go_on_keeps none t c r = eg.0 t c r
  go_on_keeps (some x) t c r = r

  go_on_enters :
      (e : Option Err) (t : Trace)
      → (go_on e g t).0 ≡ none
      → (e ≡ none → All (λ c. Registered c t) xs)
      → All (λ c. Registered c (go_on e g t).1) (ys ++ xs)
  go_on_enters none t d all = All-append _ ys xs (eg.1 t d) (All-map (eg.0 t) xs (all refl))
  go_on_enters (some x) t d all = absurd (ground arith)

  pub and_then-Enters : Enters (f and_then g) (ys ++ xs)
  and_then-Enters = (
    λ t c r. go_on_keeps (f t).0 (f t).1 c (ef.0 t c r),
    λ t d. go_on_enters (f t).0 (f t).1 d (ef.1 t),
  )

-- The calls of the `SetupWithManager` methods, the latest first.
module _ (m : Manager) where
  abbrev pub indexes : Kind → Extract → Extract → List Call
  indexes k cluster secret =
      index_field k secret_index secret ∷ index_field k cluster_index cluster ∷ []

  setup_serenedb-Enters : Enters (setup_serenedb m) (complete serenedb_controller ∷ [])
  unfolding setup_serenedb
  setup_serenedb-Enters = ask-Enters m _

  setup_database-Enters :
      Enters (setup_database m) (
        complete database_controller
        ∷ index_field a_database cluster_index cluster_of_database
        ∷ [])
  unfolding setup_database
  setup_database-Enters = and_then-Enters _ _ (_ ∷ []) (_ ∷ []) (ask-Enters m _) (ask-Enters m _)

  setup_role-Enters :
      Enters
        (setup_role m)
        (complete role_controller ∷ indexes a_role cluster_of_role secret_of_role)
  unfolding setup_role
  setup_role-Enters =
      and_then-Enters _ _ (_ ∷ []) (_ ∷ _ ∷ []) (ask-Enters m _)
        (and_then-Enters _ _ (_ ∷ []) (_ ∷ []) (ask-Enters m _) (ask-Enters m _))

  setup_server_secret-Enters : Enters (setup_server_secret m) (
      complete server_secret_controller
      ∷ indexes a_server_secret cluster_of_server_secret secret_of_server_secret)
  unfolding setup_server_secret
  setup_server_secret-Enters =
      and_then-Enters _ _ (_ ∷ []) (_ ∷ _ ∷ []) (ask-Enters m _)
        (and_then-Enters _ _ (_ ∷ []) (_ ∷ []) (ask-Enters m _) (ask-Enters m _))

  complete_backup-Enters : Enters (complete_backup m) []
  complete_backup-Enters = (λ t c r. inr (inr r), λ t e. tt)

  setup_backup-Enters :
      Enters (setup_backup m) (index_field a_backup cluster_index cluster_of_backup ∷ [])
  unfolding setup_backup
  setup_backup-Enters =
      and_then-Enters _ (complete_backup m) (_ ∷ []) [] (ask-Enters m _) complete_backup-Enters

  setup_scheduled_backup-Enters :
      Enters (setup_scheduled_backup m) (complete scheduled_backup_controller ∷ [])
  unfolding setup_scheduled_backup
  setup_scheduled_backup-Enters = ask-Enters m _

  -- The indexes that the controllers list by, and what else is taken.
  abbrev pub entered : List Call
  entered =
      complete scheduled_backup_controller
      ∷ index_field a_backup cluster_index cluster_of_backup
      ∷ complete server_secret_controller
      ∷ index_field a_server_secret secret_index secret_of_server_secret
      ∷ index_field a_server_secret cluster_index cluster_of_server_secret
      ∷ complete role_controller
      ∷ index_field a_role secret_index secret_of_role
      ∷ index_field a_role cluster_index cluster_of_role
      ∷ complete database_controller
      ∷ index_field a_database cluster_index cluster_of_database
      ∷ complete serenedb_controller
      ∷ []

  pub setup_controllers-Enters : Enters (setup_controllers m) entered
  unfolding setup_controllers
  setup_controllers-Enters =
      and_then-Enters _ _ (take 1 (drop 10 entered)) (take 10 entered) setup_serenedb-Enters (
        and_then-Enters _ _ (take 2 (drop 8 entered)) (take 8 entered) setup_database-Enters (
          and_then-Enters _ _ (take 3 (drop 5 entered)) (take 5 entered) setup_role-Enters (
            and_then-Enters _ _ (take 3 (drop 2 entered)) (take 2 entered)
              setup_server_secret-Enters
              (and_then-Enters _ _ (take 1 (drop 1 entered)) (take 1 entered) setup_backup-Enters
                setup_scheduled_backup-Enters))))

  -- The controller of Backup, which owns the snapshots or not.
  abbrev pub HasBackup : Trace → Type 0
  HasBackup t = (served : Bool) × Registered (complete (backup_controller served)) t

  abbrev pub AddsBackup : Setup → Type 0
  AddsBackup op = (t : Trace) → (op t).0 ≡ none → HasBackup (op t).1

  go_on_adds :
      (g : Setup) (e : Option Err) (t : Trace)
      → AddsBackup g
      → (go_on e g t).0 ≡ none
      → HasBackup (go_on e g t).1
  go_on_adds g none t a d = a t d
  go_on_adds g (some x) t a d = absurd (ground arith)

  go_on_holds :
      (g : Setup) (calls : List Call) (e : Option Err) (t : Trace)
      → Enters g calls
      → (e ≡ none → HasBackup t)
      → (go_on e g t).0 ≡ none
      → HasBackup (go_on e g t).1
  go_on_holds g calls none t eg has d = let (served, r) = has refl in (served, eg.0 t _ r)
  go_on_holds g calls (some x) t eg has d = absurd (ground arith)

  and_then-AddsBackup : (f g : Setup) → AddsBackup g → AddsBackup (f and_then g)
  and_then-AddsBackup f g a t d = go_on_adds g (f t).0 (f t).1 a d

  setup_backup-AddsBackup : AddsBackup (setup_backup m)
  unfolding setup_backup
  setup_backup-AddsBackup =
      and_then-AddsBackup (ask m _) (complete_backup m) (λ t d. (_, inl (refl, d)))

  both-AddsBackup : AddsBackup (setup_backup m and_then setup_scheduled_backup m)
  both-AddsBackup t d =
      go_on_holds (setup_scheduled_backup m) (complete scheduled_backup_controller ∷ [])
        (setup_backup m t).0 (setup_backup m t).1 setup_scheduled_backup-Enters
        (setup_backup-AddsBackup t) d

  pub setup_controllers-AddsBackup : AddsBackup (setup_controllers m)
  unfolding setup_controllers
  setup_controllers-AddsBackup =
      let from_backup : Setup = setup_backup m and_then setup_scheduled_backup m in
      let from_secret : Setup = setup_server_secret m and_then from_backup in
      let from_role : Setup = setup_role m and_then from_secret in
      let from_database : Setup = setup_database m and_then from_role in
      and_then-AddsBackup (setup_serenedb m) from_database (
        and_then-AddsBackup (setup_database m) from_role (
          and_then-AddsBackup (setup_role m) from_secret
            (and_then-AddsBackup (setup_server_secret m) from_backup both-AddsBackup)))
