-- ===== src/Resources/Config/Flags.antt =====
-- internal/resources/configmap.go: the flags of the flagfile as a table, each with the condition under
-- which it is given.
use serenedb_operator.Resources.Names.{http_port, postgres_port}
use serenedb_operator.Prelude.{
  texts, take, append-nil, ℕ, ◌≡◌, refl, ap, sym, ◌∙◌, String, Bool, true, false, List, [], ◌∷◌,
  ◌++◌, ◌<>◌, ◌==◌, ◌==ℕ◌, Bool-cases, inl, inr, if◌then◌else◌, concat_assoc, not, ◌&&◌, map,
}
use serenedb_operator.Prelude.Decimal.{decimal}
use serenedb_operator.Api.SereneDb.{SereneDb}
use serenedb_operator.Resources.Config.{flag_lines, append_non_zero, or_default, listen_value}

-- The lines whose condition holds.
abbrev pub given_lines : List (Bool × String) → List String
given_lines [] = []
given_lines (row ∷ rows) = if row.0 then row.1 ∷ given_lines rows else given_lines rows

abbrev text_if : Bool → String → String
text_if b s = if b then s else ""

abbrev or_else_text : String → String → String
or_else_text value fallback = if value == "" then fallback else value

abbrev or_else_number : ℕ → ℕ → ℕ
or_else_number value fallback = if value ==ℕ 0 then fallback else value

-- PostgreSQL on its port, with the SSL mode where one is set, and the HTTP listener behind it where it
-- is enabled, with TLS where that is.
abbrev pub listeners_of : SereneDb → String
listeners_of db =
    let postgres = db.spec.listeners.postgres in
    let http = db.spec.listeners.http in
    "postgres://0.0.0.0:"
    <> decimal (or_else_number postgres.port 7890)
    <> text_if (not (postgres.ssl_mode == "")) ("?sslmode=" <> postgres.ssl_mode)
    <> text_if http.enabled (
        ","
        <> (if db.spec.tls.enabled then "https" else "http")
        <> "://0.0.0.0:"
        <> decimal (or_else_number http.port 9200)
        <> "?api=es")

-- Every flag, in the order of the file.
abbrev pub flags_of : SereneDb → List (Bool × String)
flags_of db =
    let config = db.spec.config in
    let http = db.spec.listeners.http in
    let tls = db.spec.tls in
    (true, "--listen=" <> listeners_of db)
    ∷ (true, "--log_storage=stdout")
    ∷ (true, "--log_level=" <> or_else_text config.log_level "info")
    ∷ (
      not (config.max_connections ==ℕ 0),
      "--max_connections" <> "=" <> decimal config.max_connections,
    )
    ∷ (not (config.cpu_threads ==ℕ 0), "--cpu_threads" <> "=" <> decimal config.cpu_threads)
    ∷ (not (config.io_threads ==ℕ 0), "--io_threads" <> "=" <> decimal config.io_threads)
    ∷ (
      not (config.background_threads ==ℕ 0),
      "--background_threads" <> "=" <> decimal config.background_threads,
    )
    ∷ (true, "--auth_timeout=" <> or_else_text config.auth_timeout "30s")
    ∷ (true, "--idle_session_timeout=" <> or_else_text config.idle_session_timeout "75s")
    ∷ (
      not (config.pg_max_message_bytes ==ℕ 0),
      "--pg_max_message_bytes" <> "=" <> decimal config.pg_max_message_bytes,
    )
    ∷ (http.enabled && not (http.cors_origins == ""), "--http_cors_origins=" <> http.cors_origins)
    ∷ (tls.enabled, "--tls_cert=/etc/serenedb-tls/tls.crt")
    ∷ (tls.enabled, "--tls_key=/etc/serenedb-tls/tls.key")
    ∷ (tls.enabled, "--tls_min_version=" <> or_else_text tls.min_version "1.2")
    ∷ (not (config.hba == ""), "--hba_config=/etc/serenedb/pg_hba.conf")
    ∷ []

given_lines-append :
    (xs ys : List (Bool × String)) → given_lines (xs ++ ys) ≡ given_lines xs ++ given_lines ys
given_lines-append [] ys = refl
given_lines-append ((true, s) ∷ xs) ys = ap (λ ls. s ∷ ls) (given_lines-append xs ys)
given_lines-append ((false, s) ∷ xs) ys = given_lines-append xs ys

given_map :
    (b : Bool) (xs : List String) → given_lines (map (λ x. (b, x)) xs) ≡ (if b then xs else [])
given_map true [] = refl
given_map true (x ∷ xs) = ap (λ ls. x ∷ ls) (given_map true xs)
given_map false [] = refl
given_map false (x ∷ xs) = given_map false xs

if_append :
    (b : Bool) (ls xs : List String) → (if b then ls ++ xs else ls) ≡ ls ++ (if b then xs else [])
if_append true ls xs = refl
if_append false ls xs = sym (append-nil ls)

-- Lines of one condition behind the lines of a table.
rows_if :
    (ls : List String) (rows : List (Bool × String)) (b : Bool) (xs : List String)
    → ls ≡ given_lines rows
    → (if b then ls ++ xs else ls) ≡ given_lines (rows ++ map (λ x. (b, x)) xs)
rows_if ls rows b xs e =
    ap (λ l. if b then l ++ xs else l) e
    ∙ if_append b (given_lines rows) xs
    ∙ ap (λ l. given_lines rows ++ l) (sym (given_map b xs))
    ∙ sym (given_lines-append rows (map (λ x. (b, x)) xs))

row_non_zero :
    (ls : List String) (rows : List (Bool × String)) (flag : String) (n : ℕ)
    → ls ≡ given_lines rows
    → append_non_zero ls flag n
      ≡ given_lines (rows ++ (not (n ==ℕ 0), flag <> "=" <> decimal n) ∷ [])
unfolding append_non_zero
row_non_zero ls rows flag n e = elim (Bool-cases (n ==ℕ 0)) [
  | inl z ↦ rw z (rows_if ls rows false ((flag <> "=" <> decimal n) ∷ []) e)
  | inr z ↦ rw z (rows_if ls rows true ((flag <> "=" <> decimal n) ∷ []) e)
]

if_not : (b : Bool) (xs ys : List String) → (if b then xs else ys) ≡ (if not b then ys else xs)
if_not true xs ys = refl
if_not false xs ys = refl

parts :
    (enabled plain : Bool) (start mode rest : String)
    → (if not enabled
        then (if plain then start else start <> mode)
        else (if plain then start else start <> mode) <> rest)
      ≡ start <> text_if (not plain) mode <> text_if enabled rest
parts true true start mode rest = simp (texts)
parts true false start mode rest = simp (texts)
parts false true start mode rest = simp (texts)
parts false false start mode rest = simp (texts)

listen_value_lem : (db : SereneDb) → listen_value db ≡ listeners_of db
unfolding listen_value postgres_port http_port
listen_value_lem db =
    let postgres = db.spec.listeners.postgres in
    let http = db.spec.listeners.http in
    parts http.enabled (postgres.ssl_mode == "")
      ("postgres://0.0.0.0:" <> decimal (or_else_number postgres.port 7890))
      ("?sslmode=" <> postgres.ssl_mode)
      (","
        <> (if db.spec.tls.enabled then "https" else "http")
        <> "://0.0.0.0:"
        <> decimal (or_else_number http.port 9200)
        <> "?api=es")
    ∙ concat_assoc "postgres://0.0.0.0:" _ _

-- The flagfile's lines are those of the table.
pub flag_lines_lem :
    (db : SereneDb) → flag_lines db ≡ given_lines (flags_of db) ++ db.spec.config.extra_flags
unfolding flag_lines
flag_lines_lem db =
    let config = db.spec.config in
    let http = db.spec.listeners.http in
    let sized =
      row_non_zero _ (take 6 (flags_of db)) "--background_threads" config.background_threads (
        row_non_zero _ (take 5 (flags_of db)) "--io_threads" config.io_threads (
          row_non_zero _ (take 4 (flags_of db)) "--cpu_threads" config.cpu_threads (
            row_non_zero _ (take 3 (flags_of db)) "--max_connections" config.max_connections (
              ap
                (λ l.
                  ("--listen=" <> l)
                  ∷ "--log_storage=stdout"
                  ∷ ("--log_level=" <> or_default config.log_level "info")
                  ∷ [])
                (listen_value_lem db))))) in
    let timed =
      rows_if _ (take 8 (flags_of db)) true
        (("--idle_session_timeout=" <> or_default config.idle_session_timeout "75s") ∷ [])
        (rows_if _ (take 7 (flags_of db)) true
          (("--auth_timeout=" <> or_default config.auth_timeout "30s") ∷ []) sized) in
    let limited =
      row_non_zero _ (take 9 (flags_of db)) "--pg_max_message_bytes" config.pg_max_message_bytes
        timed in
    let shared =
      rows_if _ (take 10 (flags_of db)) (http.enabled && not (http.cors_origins == ""))
        (("--http_cors_origins=" <> http.cors_origins) ∷ []) limited in
    let secured =
      rows_if _ (take 11 (flags_of db)) db.spec.tls.enabled
        ("--tls_cert=/etc/serenedb-tls/tls.crt"
          ∷ "--tls_key=/etc/serenedb-tls/tls.key"
          ∷ ("--tls_min_version=" <> or_default db.spec.tls.min_version "1.2")
          ∷ [])
        shared in
    ap (λ ls. ls ++ config.extra_flags)
      (if_not (config.hba == "") _ _
        ∙ rows_if _ (take 14 (flags_of db)) (not (config.hba == ""))
            ("--hba_config=/etc/serenedb/pg_hba.conf" ∷ []) secured)
