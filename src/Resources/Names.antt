-- ===== src/Resources/Names.antt =====
-- internal/resources/names.go: the names, ports, images and labels, with their defaults.
use serenedb_operator.Prelude.{ℕ, String, [], ◌∷◌, ◌==ℕ◌, if◌then◌else◌, ◌<>◌, ◌==◌, non_empty_or}
use serenedb_operator.Prelude.Dict.{Dict, insert}
use serenedb_operator.Api.SereneDb.{
  SereneDb, default_password_key, default_image_repository, default_image_tag,
  default_postgres_port, default_http_port,
}

abbrev pub managed_by : String
managed_by = "serenedb-operator"

abbrev pub app_name : String
app_name = "serenedb"

abbrev pub config_hash_annotation : String
config_hash_annotation = "database.serenedb.com/config-hash"

abbrev pub config_mount_path : String
config_mount_path = "/etc/serenedb"

abbrev pub tls_mount_path : String
tls_mount_path = "/etc/serenedb-tls"

abbrev pub container_name : String
container_name = "serened"

abbrev pub data_volume : String
data_volume = "data"

abbrev pub config_volume : String
config_volume = "config"

abbrev pub tls_volume : String
tls_volume = "tls"

abbrev pub postgres_port_name : String
postgres_port_name = "postgres"

abbrev pub http_port_name : String
http_port_name = "http"

abbrev pub flagfile_key : String
flagfile_key = "serened.conf"

abbrev pub hba_key : String
hba_key = "pg_hba.conf"

unfoldable pub name : SereneDb → String
name db = db.metadata.name

unfoldable pub headless_service_name : SereneDb → String
headless_service_name db = db.metadata.name <> "-hl"

unfoldable pub secret_name : SereneDb → String
unfolding name
secret_name db =
    if db.spec.auth.existing_secret == "" then name db else db.spec.auth.existing_secret

unfoldable pub password_key : SereneDb → String
password_key db = non_empty_or db.spec.auth.password_key default_password_key

unfoldable pub image_repository : SereneDb → String
image_repository db = non_empty_or db.spec.image.repository default_image_repository

unfoldable pub image_tag : SereneDb → String
image_tag db = non_empty_or db.spec.image.tag default_image_tag

unfoldable pub image : SereneDb → String
unfolding image_repository image_tag
image db = image_repository db <> ":" <> image_tag db

unfoldable pub postgres_port : SereneDb → ℕ
postgres_port db =
    if db.spec.listeners.postgres.port ==ℕ 0
    then default_postgres_port
    else db.spec.listeners.postgres.port

unfoldable pub http_port : SereneDb → ℕ
http_port db =
    if db.spec.listeners.http.port ==ℕ 0 then default_http_port else db.spec.listeners.http.port

unfoldable pub host : SereneDb → String
unfolding name
host db = name db <> "." <> db.metadata.namespace <> ".svc"

unfoldable pub selector_labels : SereneDb → Dict String
selector_labels db =
    ("app.kubernetes.io/name", app_name) ∷ ("app.kubernetes.io/instance", db.metadata.name) ∷ []

unfoldable pub labels : SereneDb → Dict String
unfolding selector_labels image_tag
labels db =
    insert "app.kubernetes.io/version" (image_tag db)
      (insert "app.kubernetes.io/managed-by" managed_by (selector_labels db))
