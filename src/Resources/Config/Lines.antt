-- ===== src/Resources/Config/Lines.antt =====
-- internal/resources/configmap.go: the flagfile read back line by line.
use serenedb_operator.Resources.Config.Flags.{flag_lines_lem, flags_of, given_lines}
use mathlib.Core.Path.{subst}
use serenedb_operator.Resources.Names.{http_port, postgres_port}
use serenedb_operator.Prelude.{
  ℕ, ◌≡◌, refl, ap, sym, ◌∙◌, String, Bool, true, false, List, [], ◌∷◌, ◌++◌, ◌<>◌, ◌==◌, join, All,
  All-append, Bool-cases, inl, inr, arith, if◌then◌else◌, concat_assoc, one-concat, not, ◌&&◌,
}
use serenedb_operator.Prelude.Decimal.{decimal, each-decimal}
use serenedb_operator.Prelude.Split.{lacks, split, split-append, lacks-append}
use serenedb_operator.Api.SereneDb.{SereneDb}
use serenedb_operator.Resources.Config.{
  flagfile, flag_lines, append_non_zero, or_default, listen_value, log_level,
}

abbrev pub Plain : String → Type 0
Plain s = lacks "\n" s ≡ true

-- The texts of the spec that the flagfile holds have no line break.
pub record IsOneLine (db : SereneDb) : Type 0 where
  pub log_level : Plain db.spec.config.log_level
  pub ssl_mode : Plain db.spec.listeners.postgres.ssl_mode
  pub auth_timeout : Plain db.spec.config.auth_timeout
  pub idle_session_timeout : Plain db.spec.config.idle_session_timeout
  pub cors_origins : Plain db.spec.listeners.http.cors_origins
  pub min_version : Plain db.spec.tls.min_version
  pub extra_flags : All Plain db.spec.config.extra_flags

split-join :
    (l : String) (ls : List String)
    → All Plain (l ∷ ls)
    → split "\n" (join (l ∷ ls) "\n" <> "\n") ≡ (l ∷ ls) ++ "" ∷ []
unfolding join split
split-join l [] (h, a) = split-append "\n" l "" h
split-join l (k ∷ ls) (h, a) =
    ap (split "\n") (
      concat_assoc l ("\n" <> join (k ∷ ls) "\n") "\n"
      ∙ ap (λ s. l <> s)
          (concat_assoc "\n" (join (k ∷ ls) "\n") "\n"
            ∙ one-concat "\n" (join (k ∷ ls) "\n" <> "\n")))
    ∙ split-append "\n" l (join (k ∷ ls) "\n" <> "\n") h
    ∙ ap (λ fs. l ∷ fs) (split-join k ls a)

Plain-decimal : (n : ℕ) → Plain (decimal n)
Plain-decimal n = each-decimal _ (λ c lo hi. ground arith) n

Plain-or_default :
    (value fallback : String) → Plain value → Plain fallback → Plain (or_default value fallback)
Plain-or_default value fallback h k = elim (Bool-cases (value == "")) [
  | inl e ↦ rw e k
  | inr e ↦ rw e h
]

All-if :
    (b : Bool) (xs ys : List String)
    → All Plain xs
    → All Plain ys
    → All Plain (if b then xs else ys)
All-if true xs ys h k = h
All-if false xs ys h k = k

Plain-if : (b : Bool) (x y : String) → Plain x → Plain y → Plain (if b then x else y)
Plain-if true x y h k = h
Plain-if false x y h k = k

All-append_non_zero :
    (lines : List String) (flag : String) (n : ℕ)
    → All Plain lines
    → Plain flag
    → All Plain (append_non_zero lines flag n)
unfolding append_non_zero
All-append_non_zero lines flag n a h = All-if _ lines _ a (
    All-append Plain lines _ a (
      lacks-append "\n" flag ("=" <> decimal n) h
          (lacks-append "\n" "=" (decimal n) refl (Plain-decimal n)),
      tt,
    ))

All-one :
    (lines : List String) (a b : String)
    → All Plain lines
    → Plain a
    → Plain b
    → All Plain (lines ++ (a <> b) ∷ [])
All-one lines a b l ha hb = All-append Plain lines _ l (lacks-append "\n" a b ha hb, tt)

Plain-listen_value : (db : SereneDb) → IsOneLine db → Plain (listen_value db)
unfolding listen_value
Plain-listen_value db one =
    let base : String = "postgres://0.0.0.0:" <> decimal (postgres_port db) in
    let mode = db.spec.listeners.postgres.ssl_mode in
    let start : Plain base =
      lacks-append "\n" "postgres://0.0.0.0:" (decimal (postgres_port db)) refl
        (Plain-decimal (postgres_port db)) in
    let pg : String = if mode == "" then base else base <> "?sslmode=" <> mode in
    let first : Plain pg = Plain-if (mode == "") base (base <> "?sslmode=" <> mode) start (
      lacks-append "\n" base ("?sslmode=" <> mode) start
        (lacks-append "\n" "?sslmode=" mode refl one.ssl_mode)) in
    let scheme : String = if db.spec.tls.enabled then "https" else "http" in
    let named : Plain scheme = Plain-if db.spec.tls.enabled "https" "http" refl refl in
    let tail : Plain (decimal (http_port db) <> "?api=es") =
      lacks-append "\n" (decimal (http_port db)) "?api=es" (Plain-decimal (http_port db)) refl in
    let at : String = "://0.0.0.0:" <> decimal (http_port db) <> "?api=es" in
    let here : Plain at =
      lacks-append "\n" "://0.0.0.0:" (decimal (http_port db) <> "?api=es") refl tail in
    Plain-if (not db.spec.listeners.http.enabled) pg (pg <> "," <> scheme <> at) first (
      lacks-append "\n" pg ("," <> scheme <> at) first
        (lacks-append "\n" "," (scheme <> at) refl (lacks-append "\n" scheme at named here)))

All-flag_lines : (db : SereneDb) → IsOneLine db → All Plain (flag_lines db)
unfolding flag_lines
All-flag_lines db one =
    let cfg = db.spec.config in
    let first : All Plain (
        ("--listen=" <> listen_value db)
        ∷ "--log_storage=stdout"
        ∷ ("--log_level=" <> log_level cfg)
        ∷ []) =
      (
        lacks-append "\n" "--listen=" (listen_value db) refl (Plain-listen_value db one),
        (
          refl,
          (
            lacks-append "\n" "--log_level=" (log_level cfg) refl
                (Plain-or_default cfg.log_level "info" one.log_level refl),
            tt,
          ),
        ),
      ) in
    let sized =
      All-append_non_zero _ "--background_threads" cfg.background_threads
        (All-append_non_zero _ "--io_threads" cfg.io_threads
          (All-append_non_zero _ "--cpu_threads" cfg.cpu_threads
            (All-append_non_zero _ "--max_connections" cfg.max_connections first refl) refl)
          refl)
        refl in
    let timed =
      All-one _ "--idle_session_timeout=" (or_default cfg.idle_session_timeout "75s")
        (All-one _ "--auth_timeout=" (or_default cfg.auth_timeout "30s") sized refl
          (Plain-or_default cfg.auth_timeout "30s" one.auth_timeout refl))
        refl (Plain-or_default cfg.idle_session_timeout "75s" one.idle_session_timeout refl) in
    let limited =
      All-append_non_zero _ "--pg_max_message_bytes" cfg.pg_max_message_bytes timed refl in
    let shared =
      All-if (db.spec.listeners.http.enabled && not (db.spec.listeners.http.cors_origins == "")) _ _
        (All-one _ "--http_cors_origins=" db.spec.listeners.http.cors_origins limited refl
          one.cors_origins)
        limited in
    let secured =
      All-if db.spec.tls.enabled _ _
        (All-append Plain _ _ shared (
          refl,
          (
            refl,
            (
              lacks-append "\n" "--tls_min_version=" (or_default db.spec.tls.min_version "1.2") refl
                  (Plain-or_default db.spec.tls.min_version "1.2" one.min_version refl),
              tt,
            ),
          ),
        ))
        shared in
    All-append Plain _ cfg.extra_flags
      (All-if (cfg.hba == "") _ _ secured (All-append Plain _ _ secured (refl, tt))) one.extra_flags

abbrev IsCons : List String → Type 0
IsCons ls = (l : String) × (ks : List String) × (ls ≡ l ∷ ks)

IsCons-append : (ls ks : List String) → IsCons ls → IsCons (ls ++ ks)
IsCons-append ls ks (l, rest, e) = (l, rest ++ ks, ap (λ xs. xs ++ ks) e)

IsCons-if : (b : Bool) (ls ks : List String) → IsCons ls → IsCons ks → IsCons (if b then ls else ks)
IsCons-if true ls ks h k = h
IsCons-if false ls ks h k = k

IsCons-append_non_zero :
    (ls : List String) (flag : String) (n : ℕ) → IsCons ls → IsCons (append_non_zero ls flag n)
unfolding append_non_zero
IsCons-append_non_zero ls flag n h = IsCons-if _ ls _ h (IsCons-append ls _ h)

IsCons-flag_lines : (db : SereneDb) → IsCons (flag_lines db)
unfolding flag_lines
IsCons-flag_lines db =
    let cfg = db.spec.config in
    let first : IsCons (
        ("--listen=" <> listen_value db)
        ∷ "--log_storage=stdout"
        ∷ ("--log_level=" <> log_level cfg)
        ∷ []) =
      (_, _, refl) in
    let sized = IsCons-append_non_zero _ "--background_threads" cfg.background_threads (
      IsCons-append_non_zero _ "--io_threads" cfg.io_threads (
        IsCons-append_non_zero _ "--cpu_threads" cfg.cpu_threads
          (IsCons-append_non_zero _ "--max_connections" cfg.max_connections first))) in
    let timed =
      IsCons-append _
        (("--idle_session_timeout=" <> or_default cfg.idle_session_timeout "75s") ∷ [])
        (IsCons-append _ (("--auth_timeout=" <> or_default cfg.auth_timeout "30s") ∷ []) sized) in
    let limited =
      IsCons-append_non_zero _ "--pg_max_message_bytes" cfg.pg_max_message_bytes timed in
    let shared =
      IsCons-if (db.spec.listeners.http.enabled && not (db.spec.listeners.http.cors_origins == ""))
        _ _
        (IsCons-append _ (("--http_cors_origins=" <> db.spec.listeners.http.cors_origins) ∷ [])
          limited)
        limited in
    let secured = IsCons-if db.spec.tls.enabled _ _ (IsCons-append _ _ shared) shared in
    IsCons-append _ cfg.extra_flags
      (IsCons-if (cfg.hba == "") _ _ secured (IsCons-append _ _ secured))

-- Where the texts of the spec have no line break, the flagfile has, one a line and in the table's order,
-- the flags of the spec whose conditions hold, then the extra flags, and nothing else: no value runs
-- into the next line or adds one. The table writes out each flag with the field that it shows, its
-- default and its condition.
pub split-flagfile :
    (db : SereneDb)
    → IsOneLine db
    → split "\n" (flagfile db)
      ≡ (given_lines (flags_of db) ++ db.spec.config.extra_flags) ++ "" ∷ []
unfolding flagfile
split-flagfile db one =
    let (l, ks, e) = IsCons-flag_lines db in
    ap (λ ls. split "\n" (join ls "\n" <> "\n")) e
    ∙ split-join l ks (subst (All Plain) e (All-flag_lines db one))
    ∙ ap (λ ls. ls ++ "" ∷ []) (sym e ∙ flag_lines_lem db)
