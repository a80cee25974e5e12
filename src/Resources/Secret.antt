-- ===== src/Resources/Secret.antt =====
-- internal/resources/secret.go: the generated password Secret and who owns it.
pub mod Laws
use Prim.Native.String.{char_at, len}
use serenedb_operator.Prelude.{
  ltb, if◌then◌else◌, some, none, Option, ℕ, zero, suc, String, Bool, [], ◌∷◌, ◌==◌, ◌≡◌, refl,
}
use serenedb_operator.Errors.{err, Result, ok, ◌>>=◌}
use serenedb_operator.Api.Meta.{new_meta}
use serenedb_operator.Api.Core.{Secret}
use serenedb_operator.Api.SereneDb.{SereneDb}
use serenedb_operator.Resources.Names.{name, labels, password_key}

abbrev pub password_alphabet : String
password_alphabet = "abcdefghijklmnopqrstuvwxyzABCDEFGHIJKLMNOPQRSTUVWXYZ0123456789"

abbrev pub password_length : ℕ
password_length = 24

alphabet_size : len password_alphabet ≡ 62
alphabet_size = refl

-- The byte `passwordAlphabet[n]` before the others; `none` is the panic of an index out of range.
abbrev with_byte : ℕ → Option (Result String) → Option (Result String)
with_byte n none = none
with_byte n (some rest) =
    if ltb n (len password_alphabet)
    then some (do s ← rest; ok (String.◌∷◌ (char_at password_alphabet n) s))
    else none

-- One round, behind its draw; `rest` is what the later rounds give.
abbrev after_draw : Result ℕ → Option (Result String) → Option (Result String)
after_draw (err e) rest = some (err e)
after_draw (ok n) rest = with_byte n rest

-- The loop of `randomPassword` over the bytes that are left; `rand k` is the answer of
-- `rand.Int(rand.Reader, max)` in the round that leaves `k` bytes.
unfoldable pub random_bytes : (ℕ → Result ℕ) → ℕ → Option (Result String)
random_bytes rand zero = some (ok "")
random_bytes rand (suc k) = after_draw (rand k) (random_bytes rand k)

unfoldable pub random_password : (ℕ → Result ℕ) → Option (Result String)
unfolding random_bytes
random_password rand = random_bytes rand password_length

abbrev secret_with : SereneDb → Option (Result String) → Option (Result Secret)
secret_with db none = none
secret_with db (some generated) = some (do
  password ← generated
  ok (record {
    metadata = new_meta (name db) db.metadata.namespace (labels db);
    secret_type = "Opaque";
    content = (password_key db, password) ∷ [];
  }))

unfoldable pub generated_secret : (ℕ → Result ℕ) → SereneDb → Option (Result Secret)
generated_secret rand db = secret_with db (random_password rand)

-- The password is only honoured on first boot, so it must outlive the SereneDB whenever the data
-- volume does.
unfoldable pub secret_owned_by_database : SereneDb → Bool
secret_owned_by_database db = db.spec.persistence.retention_policy.when_deleted == "Delete"
