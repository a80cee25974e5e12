-- ===== src/Controller/Server/Status/Laws.antt =====
-- What the conditions of a SereneDB say after a reconcile (internal/controller/serenedb_controller.go).
use serenedb_operator.Prelude.{
  ◌==◌, ◌&&◌, ◌==ℕ◌, sym, arith, ◌≡◌, refl, String, Bool, true, false, Option, none, some, not, ◌∙◌,
  Bool-cases, Option-cases, inl, inr,
}
use serenedb_operator.Errors.{precondition, Err, Result, ok, err, Blocked}
use serenedb_operator.Api.Meta.{ConditionStatus, condition_ready, condition_progressing}
use serenedb_operator.Api.Core.{StatefulSet}
use serenedb_operator.Api.SereneDb.{SereneDb}
use serenedb_operator.Controller.Kube.{Library, IsConditions, is_true}
use serenedb_operator.Controller.Server.Status.{
  set_condition, set_both, describe, describe_error, describe_rollout, rollout_complete, as_blocked,
}

-- The StatefulSet's controller has seen the latest specification, and its one pod is ready and of the
-- revision that is wanted.
abbrev pub rolled_out : StatefulSet → Bool
rolled_out sts =
    (sts.status.observed_generation ==ℕ sts.metadata.generation)
    && (sts.status.ready_replicas ==ℕ 1)
    && (sts.status.updated_replicas ==ℕ 1)
    && (sts.status.current_revision == sts.status.update_revision)

-- The pod serves: the resources were applied and the StatefulSet has rolled out.
abbrev pub serves : Result StatefulSet → Bool
serves (ok sts) = rolled_out sts
serves (err e) = false

-- More is under way: a rollout, or the retry of any error that is not itself an unmet precondition.
abbrev pub in_progress : Result StatefulSet → Bool
in_progress (ok sts) = not (rolled_out sts)
in_progress (err (precondition b)) = false
in_progress (err e) = true

rollout_complete_lem : (sts : StatefulSet) → rollout_complete sts ≡ rolled_out sts
unfolding rollout_complete
rollout_complete_lem sts = ground arith

abbrev is_some_blocked : Option Blocked → Bool
is_some_blocked none = false
is_some_blocked (some b) = true

in_progress_lem : (e : Err) → in_progress (err e) ≡ not (is_some_blocked (as_blocked e))
unfolding as_blocked
in_progress_lem e = ground arith

module _ (lib : Library) (laws : IsConditions lib) where
  abbrev pub condition_holds : SereneDb → String → Bool
  condition_holds db kind = lib.is_status_condition_true db.status.conditions kind

  set_both_ready :
      (db : SereneDb) (ready progressing : ConditionStatus) (r m r' m' : String)
      → condition_holds (set_both lib db ready progressing r m r' m') condition_ready
        ≡ is_true ready
  unfolding set_both set_condition
  set_both_ready db ready progressing r m r' m' =
      laws.other_of_set _ _ condition_ready refl ∙ laws.true_of_set _ _

  set_both_progressing :
      (db : SereneDb) (ready progressing : ConditionStatus) (r m r' m' : String)
      → condition_holds (set_both lib db ready progressing r m r' m') condition_progressing
        ≡ is_true progressing
  unfolding set_both set_condition
  set_both_progressing db ready progressing r m r' m' = laws.true_of_set _ _

  -- Behind a reconcile a SereneDB is Ready exactly where its resources were applied, and its
  -- StatefulSet has its latest generation observed, one ready and updated replica, and the current
  -- revision at the one that is wanted. It is Progressing exactly where the resources were applied
  -- and this is not so, or where they were not applied for an error that is not itself an unmet
  -- precondition. Both hold whatever the conditions were before, where the condition functions of
  -- apimachinery do what they are documented to do.
  pub describe_conditions :
      (db : SereneDb) (applied : Result StatefulSet)
      → (condition_holds (describe lib db applied) condition_ready ≡ serves applied)
        × (condition_holds (describe lib db applied) condition_progressing ≡ in_progress applied)
  unfolding describe describe_error describe_rollout
  describe_conditions db (ok sts) =
      let same = rollout_complete_lem sts in
      elim (Bool-cases (rollout_complete sts)) [
        | inl e ↦
            rw (sym same, e) (set_both_ready _ _ _ _ _ _ _, set_both_progressing _ _ _ _ _ _ _)
        | inr e ↦
            rw (sym same, e) (set_both_ready _ _ _ _ _ _ _, set_both_progressing _ _ _ _ _ _ _)
      ]
  describe_conditions db (err e) =
      let same = in_progress_lem e in
      elim (Option-cases (as_blocked e)) [
        | inl q ↦ rw (same, q) (set_both_ready _ _ _ _ _ _ _, set_both_progressing _ _ _ _ _ _ _)
        | inr (b, q) ↦
            rw (same, q) (set_both_ready _ _ _ _ _ _ _, set_both_progressing _ _ _ _ _ _ _)
      ]
