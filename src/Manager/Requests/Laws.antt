-- ===== src/Manager/Requests/Laws.antt =====
-- `requestsByIndex` of internal/controller/dependent.go: which objects are reconciled for an event on a
-- SereneDB or a Secret, once the controllers are set up.
use serenedb_operator.Api.Backups.{Backup}
use serenedb_operator.Api.Dependents.{ServerSecret, DatabaseRole, Database}
use serenedb_operator.Prelude.{
  ◌++◌, if◌then◌else◌, true, false, ◌≡◌, String, Bool, some, List, [], ◌∷◌, map, filter, ◌==◌, ◌&&◌,
  any, get_or,
}
use serenedb_operator.Errors.{ok}
use serenedb_operator.Controller.Kube.{
  Kind, Object, database, role, server_secret, backup, serenedb, scheduled_backup, secret,
  network_policy, snapshot, a_serenedb, a_secret, a_database, a_role, a_server_secret, a_backup,
}
use serenedb_operator.Api.Meta.{NamespacedName, ObjectMeta}
use serenedb_operator.Manager.{complete, Watch, Controller, Manager, Trace, Extract, index_field}
use serenedb_operator.Manager.Registered.{Registered}
use serenedb_operator.Manager.Requests.{ListApi, requests_by_index}

-- The objects that a cluster holds, of the kinds that are listed.
pub record Store : Type 0 where
  pub databases : List Database
  pub roles : List DatabaseRole
  pub server_secrets : List ServerSecret
  pub backups : List Backup

abbrev pub key_of : ObjectMeta → NamespacedName
key_of m = record { namespace = m.namespace; name = m.name }

abbrev pub meta_of : Object → ObjectMeta
meta_of (database d) = d.metadata
meta_of (role r) = r.metadata
meta_of (server_secret s) = s.metadata
meta_of (backup b) = b.metadata
meta_of (serenedb s) = s.metadata
meta_of (scheduled_backup b) = b.metadata
meta_of (secret s) = s.metadata
meta_of (network_policy n) = n.metadata
meta_of (snapshot s) = s.metadata

abbrev pub objects : Store → Kind → List Object
objects store a_database = map database store.databases
objects store a_role = map role store.roles
objects store a_server_secret = map server_secret store.server_secrets
objects store a_backup = map backup store.backups
objects store _ = []

-- An object of the namespace for which the index function gives the value.
abbrev pub is_selected : Extract → (namespace value : String) → Object → Bool
is_selected extract namespace value o =
    ((meta_of o).namespace == namespace) && any (λ v. v == value) (get_or [] (extract o))

-- What controller-runtime documents of a cached client, and apimachinery of lists: an index that was
-- registered selects the objects of the kind and the namespace for which its function gives the
-- value, and a list of them has each as an object.
pub record IsIndexed (api : ListApi) (store : Store) (t : Trace) : Type 0 where
  pub selects :
      (kind : Kind) (index : String) (extract : Extract)
      → Registered (index_field kind index extract) t
      → (namespace value : String)
      → (fresh : api.ObjectList) × (api.list kind namespace index value ≡ ok fresh)
        × (api.extract_list fresh
            ≡ ok (
                map
                  (λ o. some (key_of (meta_of o)))
                  (filter (is_selected extract namespace value) (objects store kind))))

-- The object lies in the namespace of the changed one and names it.
abbrev pub is_named_by : (changed own : ObjectMeta) → List String → Bool
is_named_by changed own names =
    (own.namespace == changed.namespace) && any (λ v. v == changed.name) names

abbrev pub requests_of : {A : Type 0} → (A → ObjectMeta) → (A → Bool) → List A → List NamespacedName
requests_of own q xs = map (λ a. key_of (own a)) (filter q xs)

abbrev pub is_serenedb : Kind → Bool
is_serenedb a_serenedb = true
is_serenedb _ = false

abbrev pub is_secret : Kind → Bool
is_secret a_secret = true
is_secret _ = false

-- What controller-runtime does with an event: every watch of a kind that passes the test gives its
-- requests.
abbrev pub requests_of_watches :
    ListApi → (Kind → Bool) → ObjectMeta → List Watch → List NamespacedName
requests_of_watches api of_kind changed [] = []
requests_of_watches api of_kind changed (w ∷ ws) =
    if of_kind w.watched
    then requests_by_index api w.listed w.index changed
      ++ requests_of_watches api of_kind changed ws
    else requests_of_watches api of_kind changed ws

-- A controller of that kind was completed, and its watches request these for an event on a SereneDB,
-- and those for an event on a Secret.
abbrev pub AsksFor :
    ListApi → Trace → ObjectMeta → Kind → (serenedb_keys secret_keys : List NamespacedName) → Type 0
AsksFor api t changed kind serenedb_keys secret_keys =
    (c : Controller) × Registered (complete c) t
    × (c.for_kind ≡ kind)
    × (requests_of_watches api is_serenedb changed c.watches ≡ serenedb_keys)
    × (requests_of_watches api is_secret changed c.watches ≡ secret_keys)
