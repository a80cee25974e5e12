-- ===== src/Resources/Config.antt =====
-- internal/resources/configmap.go: the flagfile, and the digest that rolls the pod when it changes.
pub mod Digest
pub mod Flags
pub mod Lines
use Prim.Native.Char.{nul}
use serenedb_operator.Prelude.{
  ℕ, String, List, [], ◌∷◌, ◌++◌, map, not, ◌&&◌, ◌==ℕ◌, ◌==◌, if◌then◌else◌, ◌<>◌, join,
  non_empty_or, get_or,
}
use serenedb_operator.Prelude.Dict.{Dict, insert, lookup}
use serenedb_operator.Prelude.Decimal.{decimal}
use serenedb_operator.Prelude.Sort.{sort, str_less}
use serenedb_operator.Api.Meta.{new_meta}
use serenedb_operator.Api.Core.{ConfigMap}
use serenedb_operator.Api.SereneDb.{SereneDb, ConfigSpec}
use serenedb_operator.Resources.Names.{
  name, labels, postgres_port, http_port, flagfile_key, hba_key, tls_mount_path, config_mount_path,
}

-- `orDefault`
abbrev pub or_default : String → String → String
or_default value fallback = non_empty_or value fallback

unfoldable pub append_non_zero : List String → String → ℕ → List String
append_non_zero lines flag value =
    if value ==ℕ 0 then lines else lines ++ (flag <> "=" <> decimal value) ∷ []

abbrev pub log_level : ConfigSpec → String
log_level cfg = or_default cfg.log_level "info"

-- All listeners in the one comma-separated value of --listen.
unfoldable pub listen_value : SereneDb → String
listen_value db =
    let base = "postgres://0.0.0.0:" <> decimal (postgres_port db) in
    let pg =
      if db.spec.listeners.postgres.ssl_mode == ""
      then base
      else base <> "?sslmode=" <> db.spec.listeners.postgres.ssl_mode in
    let scheme : String = if db.spec.tls.enabled then "https" else "http" in
    if not db.spec.listeners.http.enabled
    then pg
    else pg <> "," <> scheme <> "://0.0.0.0:" <> decimal (http_port db) <> "?api=es"

-- The lines of the flagfile, one `--flag=value` each.
unfoldable pub flag_lines : SereneDb → List String
unfolding append_non_zero
flag_lines db =
    let cfg = db.spec.config in
    let lines0 =
      ("--listen=" <> listen_value db)
      ∷ "--log_storage=stdout"
      ∷ ("--log_level=" <> log_level cfg)
      ∷ [] in
    let lines1 = append_non_zero lines0 "--max_connections" cfg.max_connections in
    let lines2 = append_non_zero lines1 "--cpu_threads" cfg.cpu_threads in
    let lines3 = append_non_zero lines2 "--io_threads" cfg.io_threads in
    let lines4 = append_non_zero lines3 "--background_threads" cfg.background_threads in
    let lines5 = lines4 ++ ("--auth_timeout=" <> or_default cfg.auth_timeout "30s") ∷ [] in
    let lines6 =
      lines5 ++ ("--idle_session_timeout=" <> or_default cfg.idle_session_timeout "75s") ∷ [] in
    let lines7 = append_non_zero lines6 "--pg_max_message_bytes" cfg.pg_max_message_bytes in
    let lines8 =
      if db.spec.listeners.http.enabled && not (db.spec.listeners.http.cors_origins == "")
      then lines7 ++ ("--http_cors_origins=" <> db.spec.listeners.http.cors_origins) ∷ []
      else lines7 in
    let lines9 =
      if db.spec.tls.enabled
      then lines8
        ++ ("--tls_cert=" <> tls_mount_path <> "/tls.crt")
          ∷ ("--tls_key=" <> tls_mount_path <> "/tls.key")
          ∷ ("--tls_min_version=" <> or_default db.spec.tls.min_version "1.2")
          ∷ []
      else lines8 in
    let lines10 =
      if cfg.hba == ""
      then lines9
      else lines9 ++ ("--hba_config=" <> config_mount_path <> "/" <> hba_key) ∷ [] in
    lines10 ++ cfg.extra_flags

unfoldable pub flagfile : SereneDb → String
flagfile db = join (flag_lines db) "\n" <> "\n"

unfoldable pub config_map : SereneDb → ConfigMap
config_map db =
    let base : Dict String = (flagfile_key, flagfile db) ∷ [] in
    record {
      metadata = new_meta (name db) db.metadata.namespace (labels db);
      content = if db.spec.config.hba == "" then base else insert hba_key db.spec.config.hba base;
    }

-- What is written to the hash: each key and each value with a NUL behind it, by sorted key.
unfoldable pub digest_of_keys : Dict String → List String → String
digest_of_keys entries [] = ""
digest_of_keys entries (k ∷ keys) =
    k
    <> String.◌∷◌ nul ""
    <> get_or "" (lookup k entries)
    <> String.◌∷◌ nul ""
    <> digest_of_keys entries keys

unfoldable pub digest_input : Dict String → String
unfolding digest_of_keys
digest_input entries = digest_of_keys entries (sort str_less (map (λ e. e.0) entries))

-- `sha256_hex` is SHA-256 with its result in hexadecimal digits.
unfoldable pub config_hash : (String → String) → ConfigMap → String
config_hash sha256_hex cm = sha256_hex (digest_input cm.content)
