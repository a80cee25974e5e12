-- ===== src/Manager/Requests.antt =====
-- `requestsByIndex` of internal/controller/dependent.go, which turns an event on an object into requests
-- for the objects that an index finds by its name.
pub mod Laws
use serenedb_operator.Prelude.{
  ℕ, ◌≡◌, refl, String, Bool, true, false, Option, none, some, List, [], ◌∷◌, map, filter, ◌==◌,
  ◌&&◌, any, arith, get_or,
}
use serenedb_operator.Errors.{Result, ok, err, Err}
use serenedb_operator.Controller.Kube.{
  a_backup, backup, a_server_secret, server_secret, a_role, role, a_database, database, Kind,
  Object,
}
use serenedb_operator.Api.Meta.{NamespacedName, ObjectMeta}
use serenedb_operator.Manager.{Manager, Trace, Extract, index_field, Setup}
use serenedb_operator.Manager.Setup

-- The client's `List` in a namespace by an index, and apimachinery's `ExtractList`; an item that is no
-- `client.Object` is `none`.
pub record ListApi : Type 1 where
  pub ObjectList : Type 0
  pub list : Kind → (namespace index value : String) → Result ObjectList
  pub extract_list : ObjectList → Result (List (Option NamespacedName))

-- The loop over the items.
unfoldable pub keys_of_items : List (Option NamespacedName) → List NamespacedName
keys_of_items [] = []
keys_of_items (none ∷ items) = keys_of_items items
keys_of_items (some key ∷ items) = key ∷ keys_of_items items

module _ (api : ListApi) where
  abbrev pub extracted : Result (List (Option NamespacedName)) → List NamespacedName
  extracted (err e) = []
  extracted (ok items) = keys_of_items items

  abbrev pub listed : Result api.ObjectList → List NamespacedName
  listed (err e) = []
  listed (ok fresh) = extracted (api.extract_list fresh)

  -- The requests for an event on an object of this namespace and name.
  unfoldable pub requests_by_index : Kind → String → ObjectMeta → List NamespacedName
  requests_by_index kind index obj = listed (api.list kind obj.namespace index obj.name)
