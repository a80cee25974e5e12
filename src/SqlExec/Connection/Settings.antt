-- ===== src/SqlExec/Connection/Settings.antt =====
-- internal/sqlexec/session.go: the connection string of `Connect`, read as the settings that it spells:
-- words between blanks, each a key and a value round its first `=`.
use serenedb_operator.Prelude.Decimal.{each-decimal, decimal}
use Prim.Native.Char.{Char}
use serenedb_operator.Prelude.{
  one-concat, ap, ◌∙◌, ℕ, concat_assoc, not, cons-concat, nil-concat, arith, ◌∷◌, ◌<>◌, map, [],
  true, false, List, Bool, String, ◌≡◌, refl, if◌then◌else◌,
}
use serenedb_operator.Prelude.Split.{lacks-append, lacks, split, split-append}
use serenedb_operator.SqlExec.{same_char, Target}
use serenedb_operator.SqlExec.Connection.{connection_string, ssl_mode}

unfoldable pub setting : Char → String → String × String
setting q String.[] = ("", "")
setting q (String.◌∷◌ c s) =
    let (k, v) = setting q s in if same_char c q then ("", s) else (String.◌∷◌ c k, v)

abbrev pub settings : String → List (String × String)
settings s = map (setting "=") (split " " s)

setting-append :
    (q : Char) (k v : String) → lacks q k ≡ true → setting q (k <> String.◌∷◌ q v) ≡ (k, v)
unfolding setting
setting-append q String.[] v h = rw (nil-concat (String.◌∷◌ q v)) (ground arith)
setting-append q (String.◌∷◌ c k) v h =
    rw (cons-concat c k (String.◌∷◌ q v)) (ground (arith, setting-append q k v))

-- A key, its value and a blank are read as the first setting.
settings_word :
    (k v next rest : String)
    → lacks " " (k <> "=") ≡ true
    → lacks "=" k ≡ true
    → lacks " " v ≡ true
    → settings ((k <> "=") <> v <> (" " <> next) <> rest) ≡ (k, v) ∷ settings (next <> rest)
settings_word k v next rest hk he hv =
    let first : (k <> "=") <> v <> (" " <> next) <> rest
        ≡ ((k <> "=") <> v) <> String.◌∷◌ " " (next <> rest) =
      rw
        (
          concat_assoc (k <> "=") v (String.◌∷◌ " " (next <> rest)),
          concat_assoc " " next rest,
          one-concat " " (next <> rest),
        )
        refl in
    let own : (k <> "=") <> v ≡ k <> String.◌∷◌ "=" v =
      concat_assoc k "=" v ∙ ap (λ x. k <> x) (one-concat "=" v) in
    ap settings first
    ∙ ap (map (setting "="))
        (split-append " " ((k <> "=") <> v) (next <> rest) (lacks-append " " (k <> "=") v hk hv))
    ∙ ap (λ w. w ∷ settings (next <> rest)) (ap (setting "=") own ∙ setting-append "=" k v he)

lacks-decimal : (n : ℕ) → lacks " " (decimal n) ≡ true
lacks-decimal n = each-decimal (λ c. not (same_char c " ")) (λ c lo hi. ground arith) n

settings_last :
    (tls : Bool)
    → settings ("dbname=postgres sslmode=" <> ssl_mode tls <> " connect_timeout=10")
      ≡ ("dbname", "postgres")
        ∷ ("sslmode", if tls then "require" else "disable")
        ∷ ("connect_timeout", "10")
        ∷ []
unfolding split setting
settings_last true = refl
settings_last false = refl

-- The connection string of a target whose host and user hold no blank spells the target's host, port
-- and user, the database `postgres`, a timeout, and TLS exactly where the target asks for it.
pub settings-connection_string :
    (t : Target)
    → lacks " " t.host ≡ true
    → lacks " " t.user ≡ true
    → settings (connection_string t)
      ≡ ("host", t.host)
        ∷ ("port", decimal t.port)
        ∷ ("user", t.user)
        ∷ ("dbname", "postgres")
        ∷ ("sslmode", if t.tls then "require" else "disable")
        ∷ ("connect_timeout", "10")
        ∷ []
unfolding connection_string
settings-connection_string t h u =
    let tail : String = " dbname=postgres sslmode=" <> ssl_mode t.tls <> " connect_timeout=10" in
    let last : String = "dbname=postgres sslmode=" <> ssl_mode t.tls <> " connect_timeout=10" in
    let port = lacks-decimal t.port in
    settings_word "host" t.host "port=" (decimal t.port <> " user=" <> t.user <> tail) refl refl h
    ∙ ap (λ s. ("host", t.host) ∷ s)
        (settings_word "port" (decimal t.port) "user=" (t.user <> tail) refl refl port
          ∙ ap (λ s. ("port", decimal t.port) ∷ s)
              (settings_word "user" t.user "dbname=postgres sslmode="
                  (ssl_mode t.tls <> " connect_timeout=10") refl refl u
                ∙ ap (λ s. ("user", t.user) ∷ s) (settings_last t.tls)))
