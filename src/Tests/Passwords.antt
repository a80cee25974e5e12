-- ===== src/Tests/Passwords.antt =====
-- Examples: passwords from known draws.
use serenedb_operator.Resources.Names.{password_key}
use serenedb_operator.Tests.World.{db}
use serenedb_operator.Errors.{Err, ok, err, Result}
use serenedb_operator.Api.Core.{Secret}
use serenedb_operator.Resources.Secret.Laws.{
  generated_secret_lem, FailedDraw, IsPassword, random_password_draws, DrawsBelow,
}
use serenedb_operator.Resources.Secret.{generated_secret, random_password}
use serenedb_operator.Prelude.{some, ◌⊎◌, ◌∷◌, [], ◌+◌, arith, ◌%◌, ◌≡◌, ℕ, String, refl}

abbrev draws : ℕ → Result ℕ
draws k = ok (k % 62)

abbrev given : ℕ → Result ℕ
given m = ok m

ok_is : (m n : ℕ) → given m ≡ ok n → m ≡ n
ok_is m n e = ground arith

draws_below : DrawsBelow draws
draws_below k n e = omega (arith, ok_is (k % 62) n e)

-- The same draws, counted from the second turn of the alphabet on.
abbrev later_draws : ℕ → Result ℕ
later_draws k = ok ((k + 62) % 62)

later_draws_below : DrawsBelow later_draws
later_draws_below k n e = omega (arith, ok_is ((k + 62) % 62) n e)

abbrev password : String
password = "xwvutsrqponmlkjihgfedcba"

generated_secret_lem_example :
    ((p : String) × (s : Secret) × (generated_secret draws db ≡ some (ok s))
      × (s.content ≡ (password_key db, p) ∷ [])
      × IsPassword 24 p)
    ⊎ ((e : Err) × (generated_secret draws db ≡ some (err e)) × FailedDraw draws 24 e)
generated_secret_lem_example = generated_secret_lem draws draws_below db

random_password_draws_example : draws 5 ≡ later_draws 5
unfolding random_password
random_password_draws_example =
    random_password_draws draws later_draws draws_below later_draws_below password refl refl 5
      (omega arith)
