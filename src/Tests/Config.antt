-- ===== src/Tests/Config.antt =====
-- Examples: two SereneDBs with one configuration.
use serenedb_operator.Resources.Names.{http_port, postgres_port}
use serenedb_operator.Prelude.Decimal.{decimal}
use serenedb_operator.Resources.Pod.{pod_template}
use serenedb_operator.Api.SereneDb.{SereneDb}
use serenedb_operator.Prelude.{
  ◌++◌, join, ◌≡◌, refl, String, some, [], ◌∷◌, Bool-cases, inl, inr, arith, eq_iff, ◌==◌, true,
}
use Prim.Native.Char.{nul}
use mathlib.Core.Path.{subst}
use serenedb_operator.Prelude.Dict.{copy, insert, lookup}
use serenedb_operator.Prelude.Split.{split, lacks}
use serenedb_operator.Resources.Names.{name, labels}
use serenedb_operator.Resources.Config.{
  listen_value, append_non_zero, flag_lines, config_map, flagfile,
}
use serenedb_operator.Resources.Config.Digest.{IsPlain}
use serenedb_operator.Resources.Config.Lines.{IsOneLine, split-flagfile}
use serenedb_operator.Resources.Pod.Rolls.{pod_template_rolls}
use serenedb_operator.Resources.Config.Flags.{given_lines, flags_of}
use serenedb_operator.Tests.World.{db}

value_at :
    (key value k v : String) → (key == k) ≡ true → lookup k ((key, value) ∷ []) ≡ some v → value ≡ v
unfolding lookup
value_at key value k v p e = ground arith

one_entry-IsPlain :
    (key value : String)
    → lacks nul key ≡ true
    → lacks nul value ≡ true
    → IsPlain ((key, value) ∷ [])
unfolding lookup
one_entry-IsPlain key value hk hv k v e = elim (Bool-cases (key == k)) [
  | inl p ↦ (
    subst (λ x. lacks nul x ≡ true) ((eq_iff key k).0 p) hk,
    subst (λ x. lacks nul x ≡ true) (value_at key value k v p e) hv,
  )
  | inr p ↦ absurd (ground arith)
]

abbrev annotated : SereneDb
annotated = record db { spec = record (db.spec) { pod_annotations = ("team", "storage") ∷ [] } }

flagfile_plain : lacks nul (flagfile db) ≡ true
unfolding flagfile flag_lines append_non_zero listen_value join decimal postgres_port http_port
flagfile_plain = refl

db-IsPlain : IsPlain (config_map db).content
unfolding config_map
db-IsPlain = one_entry-IsPlain "serened.conf" (flagfile db) refl flagfile_plain

annotated-IsPlain : IsPlain (config_map annotated).content
unfolding config_map flagfile flag_lines listen_value postgres_port http_port
annotated-IsPlain = db-IsPlain

pod_template_rolls_example :
    lookup "serened.conf" (config_map db).content
    ≡ lookup "serened.conf" (config_map annotated).content
unfolding lookup pod_template config_map name labels flagfile flag_lines listen_value postgres_port
    http_port copy insert
pod_template_rolls_example =
    pod_template_rolls (λ s. s) db annotated db-IsPlain annotated-IsPlain tt (refl, tt) refl refl
      (λ p. p) refl "serened.conf"

db-IsOneLine : IsOneLine db
db-IsOneLine = record {
  log_level = refl;
  ssl_mode = refl;
  auth_timeout = refl;
  idle_session_timeout = refl;
  cors_origins = refl;
  min_version = refl;
  extra_flags = tt;
}

split-flagfile_example :
    split "\n" (flagfile db) ≡ (given_lines (flags_of db) ++ db.spec.config.extra_flags) ++ "" ∷ []
split-flagfile_example = split-flagfile db db-IsOneLine
