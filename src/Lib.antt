-- ===== src/Lib.antt =====
-- The SereneDB operator: a Kubernetes operator that runs SereneDB servers and the databases, roles, secrets
-- and backups on them.
--
-- Parts and files (paths of the Go code from the repository's root):
-- Api: the custom resources (api/v1alpha1) and the fields of Kubernetes objects that the operator sets
--   or reads. Quantities, tolerations, affinities and resource requirements, which are only copied, are
--   texts; times are nanoseconds since Go's zero time.
-- Api.DeepCopy: the generated deep copies (api/v1alpha1/zz_generated.deepcopy.go). Memory has cells at
--   addresses, the Go types as shapes, and `view`, which reads a value of a type through memory; Copiers
--   has the steps that the generator writes; a module for each file of types, and Registry for what
--   the files register. The DeepCopyInto functions of other packages are a parameter. The rest of the
--   development takes objects as values, as the copy that a controller keeps for its patch allows.
-- Errors: the errors that the code makes, and the reasons of API errors that it tells apart.
-- SqlExec, Statements: the quoting of internal/sqlexec/session.go and the SQL of
--   internal/statements/statements.go. What pgx does to an identifier is a parameter.
-- Statements.Tokens: a reader of SQL texts, by which the statements are judged.
-- SqlExec.Connection: the session of internal/sqlexec/session.go. pgx is a record of functions on a state of
--   its own, in which its connections and result sets live.
-- SqlExec.Fake: the recorder of internal/sqlexec/fake.go; a method is one step, as its mutex makes it.
-- Resources: the objects that internal/resources builds from a SereneDB, a module for each file;
--   Pod holds the pod's part of statefulset.go.
-- Controller.Kube: the outside of a reconciler as a record of functions: the API server, the SQL server,
--   the clock, and library functions. An answer may depend on all calls made before, so any failure
--   and any other client at work is covered. CreateOrUpdate gets the code's mutate function.
-- Controller.Op: an operation takes the history of calls and returns an outcome (a value, an unmet
--   precondition, an error or a panic) with the longer history, the latest call first. Deferred calls of
--   Close are `closing`, handled errors are `capture`.
-- Controller.Session, Controller.Finalize, Controller.Outcome: internal/controller/dependent.go, which the
--   controllers of Database, DatabaseRole and ServerSecret share, and Backup uses for its session.
-- Controller.Database, Controller.Role, Controller.ServerSecret, Controller.Backup, Controller.Schedule and
--   Controller.Server: the controllers, a function for each Go function and one for each decision in it.
--   `reconcile` reads the object, `reconcile_object` is what follows. Controller.Backup.Lifecycle has the
--   steps of one Backup one after the other, with other clients' changes in between.
-- Controller.Total, Controller.Every: what holds of all the reconcilers.
-- Manager: the reconcilers, the SetupWithManager methods of internal/controller and requestsByIndex of
--   dependent.go. The manager takes or refuses each call by the calls before; a call is recorded with its error.
-- Command: cmd/main.go behind the parsing of its flags. Its steps are the calls of Manager, and
--   `setup_controllers` is its part that sets up the controllers.
-- Prelude: lists, texts, maps, sorting, decimal numbers and integers over the native numbers. A Go map is
--   an association list; where Go iterates over a map, the order is an answer of the environment, or the
--   theorem holds for every order.
-- Tests: one environment, and the theorems at concrete inputs.
--
-- All loops but one are structural recursion over a list or a count. The loop over a result set in
-- SqlExec.Connection runs on fuel, of which one more than the rows is enough. A `time.Duration` has 64 bits
-- and its saturation and wrap-around are written out.
--
-- Panics are outcomes: of `row[0]` on a row without columns, of an index past the password's alphabet, and
-- of the prune loop that starts at a negative count.
--
-- Not modelled: the parsing of flags, the logger and the scheme of cmd/main.go, and what controller-runtime does
-- with the registered types. A slice is taken as a whole array, without parts that several slices share. A deep
-- copy's map keeps the order of the original's entries, which Go leaves open.
pub mod Prelude
pub mod Errors
pub mod Api
pub mod SqlExec
pub mod Statements
pub mod Resources
pub mod Controller
pub mod Manager
pub mod Command
pub mod Tests
