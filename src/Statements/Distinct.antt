-- ===== src/Statements/Distinct.antt =====
-- internal/statements/statements.go: statements that are told apart by how they begin.
use serenedb_operator.Prelude.{
  ℕ, ◌≡◌, ap, String, false, ◌==◌, eq_iff, inl, inr, Bool-cases, cons-concat, arith,
}
use Prim.Native.Char.{code}
use serenedb_operator.Statements.{identifier, create_database, drop_database}

abbrev first_code : String → ℕ
first_code String.[] = 0
first_code (String.◌∷◌ c s) = code c

-- No text is both a statement that creates a database and one that drops a database.
pub create_database_apart :
    (sanitize : String → String) (name other : String)
    → (drop_database sanitize other == create_database sanitize name) ≡ false
unfolding create_database drop_database identifier
create_database_apart sanitize name other =
    elim (Bool-cases (drop_database sanitize other == create_database sanitize name)) [
      | inr e ↦ e
      | inl e ↦
          let p = (eq_iff (drop_database sanitize other) (create_database sanitize name)).0 e in
          let c : first_code (create_database sanitize name) ≡ b'C' =
            ap first_code (cons-concat "C" "REATE DATABASE IF NOT EXISTS " (sanitize name)) in
          let d : first_code (drop_database sanitize other) ≡ b'D' =
            ap first_code (cons-concat "D" "ROP DATABASE " (sanitize other)) in
          absurd (omega (arith, ap first_code p, c, d))
    ]
