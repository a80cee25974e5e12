-- ===== src/Statements/Roles.antt =====
-- `RoleAttributes.render` of internal/statements/statements.go, read back as tokens.
use serenedb_operator.Statements.Attributes.{
  password-PartRead, valid-PartRead, password_tokens, valid_tokens, limit-PartRead, flag-Reads,
  limit_tokens, flag_tokens,
}
use serenedb_operator.Statements.Tokens.Parts.{
  join-PartRead, PartRead-cons, PartRead-append, PartRead,
}
use mathlib.Core.Path.{subst}
use serenedb_operator.Prelude.{
  one-concat, ◌≡◌, refl, ap, ◌∙◌, String, false, some, List, ◌∷◌, ◌++◌, ◌<>◌, join, arith, inl, inr,
}
use serenedb_operator.Errors.{ok, Result-cases}
use serenedb_operator.SqlExec.{has_nul, IsSanitizer}
use serenedb_operator.Statements.{
  identifier, RoleAttributes, render, flag, limit_part, valid_part, password_part, create_role,
  alter_role,
}
use serenedb_operator.Statements.Tokens.{Token, tokens, Reads, scan}

abbrev pub optional_tokens : RoleAttributes → List Token
optional_tokens a =
    limit_tokens a.connection_limit ++ (valid_tokens a.valid_until ++ password_tokens a.password)

abbrev pub attribute_tokens : RoleAttributes → List Token
attribute_tokens a =
    flag_tokens a.login "LOGIN" "NOLOGIN"
    ++ (flag_tokens a.superuser "SUPERUSER" "NOSUPERUSER"
        ++ (flag_tokens a.create_db "CREATEDB" "NOCREATEDB"
            ++ (flag_tokens a.create_role "CREATEROLE" "NOCREATEROLE"
                ++ (flag_tokens a.inherit "INHERIT" "NOINHERIT" ++ optional_tokens a))))

flags-Reads :
    (a : RoleAttributes) (ps : List String)
    → PartRead ps (optional_tokens a)
    → Reads
        (join
          (flag a.login "LOGIN"
            ∷ flag a.superuser "SUPERUSER"
            ∷ flag a.create_db "CREATEDB"
            ∷ flag a.create_role "CREATEROLE"
            ∷ flag a.inherit "INHERIT"
            ∷ ps)
          " ")
        (attribute_tokens a)
flags-Reads a ps r =
    let p4 : List String = flag a.inherit "INHERIT" ∷ ps in
    let p3 : List String = flag a.create_role "CREATEROLE" ∷ p4 in
    let p2 : List String = flag a.create_db "CREATEDB" ∷ p3 in
    let p1 : List String = flag a.superuser "SUPERUSER" ∷ p2 in
    let t4 : List Token = flag_tokens a.inherit "INHERIT" "NOINHERIT" ++ optional_tokens a in
    let t3 : List Token = flag_tokens a.create_role "CREATEROLE" "NOCREATEROLE" ++ t4 in
    let t2 : List Token = flag_tokens a.create_db "CREATEDB" "NOCREATEDB" ++ t3 in
    let t1 : List Token = flag_tokens a.superuser "SUPERUSER" "NOSUPERUSER" ++ t2 in
    let r4 : PartRead p4 t4 =
      PartRead-cons _ ps (flag_tokens a.inherit "INHERIT" "NOINHERIT") (optional_tokens a)
        (flag-Reads a.inherit "INHERIT" refl refl) r in
    let r3 : PartRead p3 t3 =
      PartRead-cons _ p4 (flag_tokens a.create_role "CREATEROLE" "NOCREATEROLE") t4
        (flag-Reads a.create_role "CREATEROLE" refl refl) r4 in
    let r2 : PartRead p2 t2 =
      PartRead-cons _ p3 (flag_tokens a.create_db "CREATEDB" "NOCREATEDB") t3
        (flag-Reads a.create_db "CREATEDB" refl refl) r3 in
    let r1 : PartRead p1 t1 =
      PartRead-cons _ p2 (flag_tokens a.superuser "SUPERUSER" "NOSUPERUSER") t2
        (flag-Reads a.superuser "SUPERUSER" refl refl) r2 in
    join-PartRead (flag a.login "LOGIN") p1 (flag_tokens a.login "LOGIN" "NOLOGIN") t1
      (flag-Reads a.login "LOGIN" refl refl) r1

render-Reads : (a : RoleAttributes) (s : String) → render a ≡ ok s → Reads s (attribute_tokens a)
unfolding render
render-Reads a s e = elim (Result-cases (valid_part a.valid_until)) [
  | inr (x, v) ↦ absurd (ground arith)
  | inl (valid, v) ↦ elim (Result-cases (password_part a.password)) [
    | inr (x, p) ↦ absurd (ground arith)
    | inl (password, p) ↦
        let parts = limit_part a.connection_limit ++ (valid ++ password) in
        let same : join
              (flag a.login "LOGIN"
                ∷ flag a.superuser "SUPERUSER"
                ∷ flag a.create_db "CREATEDB"
                ∷ flag a.create_role "CREATEROLE"
                ∷ flag a.inherit "INHERIT"
                ∷ parts)
              " "
            ≡ s =
          ground arith in
        subst (λ x. Reads x (attribute_tokens a)) same
          (flags-Reads a parts (
            PartRead-append (limit_part a.connection_limit) (valid ++ password)
              (limit_tokens a.connection_limit) _ (limit-PartRead a.connection_limit)
              (PartRead-append valid password (valid_tokens a.valid_until)
                (password_tokens a.password) (valid-PartRead a.valid_until valid v)
                (password-PartRead a.password password p))))
  ]
]

-- The rest of a statement behind the name.
abbrev pub ReadsRole :
    {sanitize : String → String}
    → IsSanitizer sanitize
    → (start : String) → String
    → RoleAttributes
    → (s : String) → Type 0
ReadsRole law start name attrs s =
    (named rest : String) × (s ≡ start <> named)
    × (law.read_identifier named ≡ some (name, rest))
    × (tokens rest ≡ attribute_tokens attrs)

blank_first : (s : String) → tokens (" " <> s) ≡ tokens s
unfolding scan
blank_first s = ap tokens (one-concat " " s)

module _ (sanitize : String → String) (law : IsSanitizer sanitize) where
  statement_reads :
      (start name rendered : String) (attrs : RoleAttributes)
      → has_nul name ≡ false
      → render attrs ≡ ok rendered
      → ReadsRole law start name attrs (start <> sanitize name <> " " <> rendered)
  statement_reads start name rendered attrs n e = (
    sanitize name <> " " <> rendered,
    " " <> rendered,
    refl,
    law.read_back name (" " <> rendered) n (rw (one-concat " " rendered) refl),
    blank_first rendered ∙ (render-Reads attrs rendered e).0,
  )

  -- The statements that create and alter a role are read back, by the server's reading of identifiers and
  -- of literals, as the role's name, which holds no NUL, and as exactly the attributes: no name,
  -- password or date adds a word to the statement.
  pub create_role-ReadsRole :
      (name created altered : String) (attrs : RoleAttributes)
      → has_nul name ≡ false
      → create_role sanitize name attrs ≡ ok created
      → alter_role sanitize name attrs ≡ ok altered
      → ReadsRole law "CREATE ROLE " name attrs created
        × ReadsRole law "ALTER ROLE " name attrs altered
  unfolding create_role alter_role identifier
  create_role-ReadsRole name created altered attrs n c a = elim (Result-cases (render attrs)) [
    | inr (x, e) ↦ absurd (ground arith)
    | inl (rendered, e) ↦
        let made : "CREATE ROLE " <> sanitize name <> " " <> rendered ≡ created = ground arith in
        let changed : "ALTER ROLE " <> sanitize name <> " " <> rendered ≡ altered = ground arith in
        (
          subst (ReadsRole law "CREATE ROLE " name attrs) made
              (statement_reads "CREATE ROLE " name rendered attrs n e),
          subst (ReadsRole law "ALTER ROLE " name attrs) changed
              (statement_reads "ALTER ROLE " name rendered attrs n e),
        )
  ]
