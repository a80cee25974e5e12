-- ===== src/Controller/Outcome/Laws.antt =====
-- `outcome` of internal/controller/dependent.go: what is reported of an application.
use serenedb_operator.Prelude.{ℕ, ◌≡◌, ◌≢◌, refl, if◌then◌else◌, Bool, true, false, List}
use serenedb_operator.Api.Meta.{Condition, condition_ready}
use serenedb_operator.Controller.Kube.{Library, IsConditions}
use serenedb_operator.Controller.Op.{Outcome, done, stopped, failed, panicked}
use serenedb_operator.Controller.Outcome.{outcome, set_ready, resync_interval}
use serenedb_operator.Controller.Finalize.{missing_dependency_requeue}

abbrev pub is_applied : {A : Type 0} → Outcome A → Bool
is_applied (done a) = true
is_applied o = false

-- Behind an application that did not panic the object is Ready exactly where it was applied, and
-- the requeue is ten minutes then and thirty seconds otherwise, where the condition functions of
-- apimachinery do what they are documented to do.
outcome_ready :
    (lib : Library)
    → IsConditions lib
    → {A : Type 0} (conditions : List Condition) (generation : ℕ) (r : Outcome A) → r ≢ panicked
    → (lib.is_status_condition_true (outcome lib conditions generation r).0 condition_ready
        ≡ is_applied r)
      × ((outcome lib conditions generation r).1
          ≡ (if is_applied r then resync_interval else missing_dependency_requeue))
unfolding outcome set_ready
outcome_ready lib laws conditions generation (done a) n = (laws.true_of_set _ _, refl)
outcome_ready lib laws conditions generation (stopped b) n = (laws.true_of_set _ _, refl)
outcome_ready lib laws conditions generation (failed e) n = (laws.true_of_set _ _, refl)
outcome_ready lib laws conditions generation panicked n = absurd (n refl)
