-- ===== src/Api/Meta.antt =====
-- The metadata of objects, their conditions and the references between them
-- (api/v1alpha1/dependent_types.go, and the types of apimachinery that it is made of).
use serenedb_operator.Prelude.{ℕ, String, Bool, Option, none, List, []}
use serenedb_operator.Prelude.Dict.{Dict}

-- Nanoseconds since the zero time of Go.
abbrev pub Time : Type 0
Time = ℕ

pub record NamespacedName : Type 0 where
  pub namespace : String
  pub name : String

pub record OwnerReference : Type 0 where
  pub uid : String
  pub controller : Bool

pub record ObjectMeta : Type 0 where
  pub name : String
  pub namespace : String
  pub uid : String
  pub generation : ℕ
  pub resource_version : String
  pub creation_timestamp : Time
  pub deletion_timestamp : Option Time
  pub labels : Dict String
  pub annotations : Dict String
  pub finalizers : List String
  pub owner_references : List OwnerReference

-- The metadata of an object that the operator is about to create.
abbrev pub new_meta : String → String → Dict String → ObjectMeta
new_meta object_name object_namespace object_labels = record {
  name = object_name;
  namespace = object_namespace;
  uid = "";
  generation = 0;
  resource_version = "";
  creation_timestamp = 0;
  deletion_timestamp = none;
  labels = object_labels;
  annotations = [];
  finalizers = [];
  owner_references = [];
}

pub data ConditionStatus : Type 0 where
  condition_true condition_false condition_unknown : ConditionStatus

pub record Condition : Type 0 where
  pub kind : String  -- the field `Type`
  pub status : ConditionStatus
  pub reason : String
  pub message : String
  pub observed_generation : ℕ

abbrev pub condition_ready : String
condition_ready = "Ready"

abbrev pub condition_progressing : String
condition_progressing = "Progressing"

abbrev pub reclaim_retain : String
reclaim_retain = "Retain"

abbrev pub reclaim_delete : String
reclaim_delete = "Delete"

abbrev pub dependent_finalizer : String
dependent_finalizer = "database.serenedb.com/cleanup"

-- The SereneDB in the same namespace that an object belongs to.
pub record ClusterRef : Type 0 where
  pub name : String

pub record DependentStatus : Type 0 where
  pub observed_generation : ℕ
  pub conditions : List Condition
