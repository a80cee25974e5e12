-- ===== src/Controller/Schedule/Laws.antt =====
-- internal/controller/scheduledbackup_controller.go: when a Backup is due, and which Backups go.
use serenedb_operator.Prelude.{
  ◌==◌, ◌==ℕ◌, ap, ℕ, zero, suc, ◌<◌, ◌≡◌, ◌⊎◌, inl, inr, refl, Bool, true, false, none, some,
  Option, arith, ◌∷◌, List, [], ◌++◌, Bool-cases, Option-cases, filter, take, drop,
  take-append-drop, length, All,
}
use serenedb_operator.Prelude.Sort.{
  str_less, sort, str_less-IsOrder, IsOrder, IsSorted, sort-IsSorted, sort-perm,
}
use mathlib.Core.List.{Perm}
use serenedb_operator.Errors.{Err, is_not_found}
use serenedb_operator.Api.Meta.{Time}
use serenedb_operator.Api.Backups.{Backup, ScheduledBackup}
use serenedb_operator.Controller.Kube.{History, delete, backup}
use serenedb_operator.Controller.Schedule.{newer, surplus, is_completed, due, due_since}

-- `newer` is an order: the newest first, and by name downwards at the same time.
newer_asym : (x y : Backup) → newer x y ≡ true → newer y x ≡ false
unfolding newer
newer_asym x y h = ground (arith, str_less-IsOrder.asym y.metadata.name x.metadata.name)

newer_le_trans : (x y z : Backup) → newer y x ≡ false → newer z y ≡ false → newer z x ≡ false
unfolding newer
newer_le_trans x y z h k =
    ground (arith, str_less-IsOrder.le_trans z.metadata.name y.metadata.name x.metadata.name)

newer-IsOrder : IsOrder newer
newer-IsOrder = record { asym = newer_asym; le_trans = newer_le_trans }

All-filter : {A : Type 0} (p : A → Bool) (l : List A) → All (λ x. p x ≡ true) (filter p l)
All-filter p [] = tt
All-filter p (x ∷ l) = elim (Bool-cases (p x)) [
  | inl e ↦ rw e (e, All-filter p l)
  | inr e ↦ rw e (All-filter p l)
]

All-drop : {A : Type 0} (P : A → Type 0) (n : ℕ) (l : List A) → All P l → All P (drop n l)
All-drop P zero l a = a
All-drop P (suc n) [] a = tt
All-drop P (suc n) (x ∷ l) (h, a) = All-drop P n l a

-- In a sorted list nothing in the tail comes before anything in the head.
take-drop-IsSorted :
    {A : Type 0} (less : A → A → Bool) (n : ℕ) (l : List A)
    → IsSorted less l
    → All (λ k. All (λ x. less x k ≡ false) (drop n l)) (take n l)
take-drop-IsSorted less zero l s = tt
take-drop-IsSorted less (suc n) [] s = tt
take-drop-IsSorted less (suc n) (x ∷ l) (a, s) =
    (All-drop (λ y. less y x ≡ false) n l a, take-drop-IsSorted less n l s)

-- Created earlier, or at the same time and with a name that is not behind.
abbrev pub IsOlder : Backup → Backup → Type 0
IsOlder a b =
    (a.metadata.creation_timestamp < b.metadata.creation_timestamp)
    ⊎ ((a.metadata.creation_timestamp ≡ b.metadata.creation_timestamp)
        × (str_less b.metadata.name a.metadata.name ≡ false))

newer-IsOlder : (a b : Backup) → newer a b ≡ false → IsOlder a b
unfolding newer
newer-IsOlder a b h =
    let s = a.metadata.creation_timestamp in
    let t = b.metadata.creation_timestamp in
    elim (Bool-cases (s ==ℕ t)) [
      | inl e ↦ inr (ground arith, ground arith)
      | inr e ↦ inl (ground arith)
    ]

All-IsOlder :
    (b : Backup) (l : List Backup) → All (λ a. newer a b ≡ false) l → All (λ a. IsOlder a b) l
All-IsOlder b [] h = tt
All-IsOlder b (a ∷ l) (h, rest) = (newer-IsOlder a b h, All-IsOlder b l rest)

All-All-IsOlder :
    (rest l : List Backup)
    → All (λ b. All (λ a. newer a b ≡ false) rest) l
    → All (λ b. All (λ a. IsOlder a b) rest) l
All-All-IsOlder rest [] h = tt
All-All-IsOlder rest (b ∷ l) (h, more) = (All-IsOlder b rest h, All-All-IsOlder rest l more)

-- The list goes from the newest to the oldest.
abbrev pub IsNewestFirst : List Backup → Type 0
IsNewestFirst [] = Unit
IsNewestFirst (b ∷ l) = All (λ a. IsOlder a b) l × IsNewestFirst l

-- A full prefix, or nothing behind it.
take-drop-cases :
    {A : Type 0} (n : ℕ) (l : List A)
    → (length (take n l) ≡ n) ⊎ ((length (take n l) < n) × (drop n l ≡ []))
take-drop-cases zero l = inl refl
take-drop-cases (suc n) [] = inr (omega arith, refl)
take-drop-cases (suc n) (x ∷ l) = elim (take-drop-cases n l) [
  | inl e ↦ inl (ap suc e)
  | inr (a, e) ↦ inr (omega (arith, a), e)
]

-- The completed Backups are split into some that are kept and the surplus, with none lost; either
-- `keep` of them are kept, or fewer and there is no surplus; and each Backup of the surplus is older
-- than each kept one, or as old and with a name that is not behind.
pub surplus_splits :
    (keep : ℕ) (items : List Backup)
    → (stay : List Backup) × (Perm
        (stay ++ surplus keep items)
        (filter (λ b. b.status.phase == "Completed") items))
      × ((length stay ≡ keep) ⊎ ((length stay < keep) × (surplus keep items ≡ [])))
      × (All (λ b. All (λ a. IsOlder a b) (surplus keep items)) stay)
unfolding surplus
surplus_splits keep items =
    let l = sort newer (filter is_completed items) in
    (
      take keep l,
      rw (take-append-drop keep l) (sort-perm newer (filter is_completed items)),
      take-drop-cases keep l,
      All-All-IsOlder (drop keep l) (take keep l) (
          take-drop-IsSorted newer keep l
            (sort-IsSorted newer-IsOrder (filter is_completed items))),
    )

-- A schedule without a next time, for which cron answers the zero time, is due at every time.
pub due_without_next :
    (s : ScheduledBackup) (next : Time → Time) (now : Time)
    → ((t : Time) → next t ≡ 0)
    → due s next now ≡ true
unfolding due due_since
due_without_next s next now never = elim (Option-cases s.status.last_schedule_time) [
  | inl e ↦ ground (arith, never s.metadata.creation_timestamp)
  | inr (last, e) ↦ ground (arith, never last)
]

-- At the time of the last run no Backup is due, where the schedule's next time is later.
pub due_after_run :
    (s : ScheduledBackup) (next : Time → Time) (now : Time)
    → s.status.last_schedule_time ≡ some now
    → now < next now
    → due s next now ≡ false
unfolding due due_since
due_after_run s next now ran later = ground arith

-- The calls of a list of deletions that all succeed or find their object gone.
abbrev pub AreDeleted : List Backup → (h h' : History) → Type 0
AreDeleted [] h h' = h' ≡ h
AreDeleted (b ∷ rest) h h' =
    (failure : Option Err) × ((failure ≡ none)
      ⊎ ((e : Err) × (failure ≡ some e) × (is_not_found e ≡ true)))
    × AreDeleted rest (record { call = delete (backup b); error = failure } ∷ h) h'
