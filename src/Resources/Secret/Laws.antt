-- ===== src/Resources/Secret/Laws.antt =====
-- internal/resources/secret.go: which passwords are generated, and from which random numbers.
use serenedb_operator.Api.Meta.{new_meta}
use serenedb_operator.Resources.Names.{labels, name, password_key}
use serenedb_operator.Api.Core.{Secret}
use serenedb_operator.Api.SereneDb.{SereneDb}
use serenedb_operator.Errors.{Result-cases, ok, err, Err, Result}
use mathlib.Core.Path.{subst}
use serenedb_operator.Resources.Secret.{
  random_password, generated_secret, random_bytes, password_alphabet,
}
use Prim.Native.String.{String, char_at, len}
use Prim.Native.Char.{code, Char}
use serenedb_operator.Prelude.{
  Option-cases, some, ap, sym, ◌∙◌, ◌∷◌, [], not, ◌⊎◌, each, inr, inl, ◌==ℕ◌, Bool-cases, ◌||◌,
  ◌&&◌, arith, ◌≡◌, ◌<◌, true, false, ℕ, Bool, refl, zero, suc,
}

-- The character is one of the text's.
unfoldable pub one_of : String → Char → Bool
one_of String.[] c = false
one_of (String.◌∷◌ d s) c = code d ==ℕ code c || one_of s c

-- A test of every number below a bound.
all_below : ℕ → (ℕ → Bool) → Bool
all_below zero p = true
all_below (suc n) p = p n && all_below n p

and_left : (a b : Bool) → (a && b) ≡ true → a ≡ true
and_left a b h = ground arith

all_below_at : (n : ℕ) (p : ℕ → Bool) (k : ℕ) → all_below n p ≡ true → k < n → p k ≡ true
unfolding all_below
all_below_at zero p k a l = absurd (omega arith)
all_below_at (suc n) p k a l = elim (Bool-cases (k ==ℕ n)) [
  | inl t ↦
      let e : n ≡ k = ground arith in subst (λ m. p m ≡ true) e (and_left (p n) (all_below n p) a)
  | inr t ↦ all_below_at n p k (ground arith) (ground arith)
]

alphabet_character :
    (n : ℕ)
    → n < len password_alphabet
    → one_of password_alphabet (char_at password_alphabet n) ≡ true
unfolding all_below one_of
alphabet_character n l =
    all_below_at 62 (λ n. one_of password_alphabet (char_at password_alphabet n)) n refl l

-- The number of characters, which is that of bytes for these characters.
abbrev pub characters : String → ℕ
characters String.[] = 0
characters (String.◌∷◌ c s) = suc (characters s)

-- Every draw that succeeds is below the size of the alphabet, as `rand.Int` says of its result.
abbrev pub DrawsBelow : (ℕ → Result ℕ) → Type 0
DrawsBelow rand = (k n : ℕ) → rand k ≡ ok n → n < len password_alphabet

-- The text has that many characters, all from the alphabet.
abbrev pub IsPassword : ℕ → String → Type 0
IsPassword k p = (characters p ≡ k) × (each (one_of password_alphabet) p ≡ true)

-- The draws of some round failed.
abbrev pub FailedDraw : (ℕ → Result ℕ) → ℕ → Err → Type 0
FailedDraw rand k e = (j : ℕ) × (j < k) × (rand j ≡ err e)

module _ (rand : ℕ → Result ℕ) (below : DrawsBelow rand) where
  random_bytes-cases :
      (k : ℕ)
      → ((p : String) × (random_bytes rand k ≡ some (ok p)) × IsPassword k p)
        ⊎ ((e : Err) × (random_bytes rand k ≡ some (err e)) × FailedDraw rand k e)
  unfolding random_bytes
  random_bytes-cases zero = inl ("", refl, (refl, refl))
  random_bytes-cases (suc k) = elim (Result-cases (rand k)) [
    | inl (n, q) ↦ elim (random_bytes-cases k) [
      | inl (p, r, (l, a)) ↦ inl (
        String.◌∷◌ (char_at password_alphabet n) p,
        ground (arith, below k n q),
        (rw l, rw (alphabet_character n (below k n q), a)),
      )
      | inr (e, r, (j, l, f)) ↦ inr (e, ground (arith, below k n q), (j, omega (arith, l), f))
    ]
    | inr (e, q) ↦ inr (e, rw q, (k, omega arith, q))
  ]

  -- Where every draw is below the size of the alphabet, either all draws succeed, and the Secret
  -- holds, under the key that the SereneDB names, a password of 24 characters from the alphabet; or
  -- a draw of the 24 fails, and its error is the result.
  pub generated_secret_lem :
      (db : SereneDb)
      → ((p : String) × (s : Secret) × (generated_secret rand db ≡ some (ok s))
          × (s.content ≡ (password_key db, p) ∷ [])
          × IsPassword 24 p)
        ⊎ ((e : Err) × (generated_secret rand db ≡ some (err e)) × FailedDraw rand 24 e)
  unfolding generated_secret random_password
  generated_secret_lem db = elim (random_bytes-cases 24) [
    | inl (p, q, good) ↦ inl (
      p,
      record {
        metadata = new_meta (name db) db.metadata.namespace (labels db);
        secret_type = "Opaque";
        content = (password_key db, p) ∷ [];
      },
      rw q,
      refl,
      good,
    )
    | inr (e, q, failed) ↦ inr (e, rw q, failed)
  ]

-- Such draws lead to no panic.
pub generated_secret-some :
    (rand : ℕ → Result ℕ)
    → DrawsBelow rand
    → (db : SereneDb) → (r : Result Secret) × (generated_secret rand db ≡ some r)
generated_secret-some rand below db = elim (generated_secret_lem rand below db) [
  | inl (p, s, q, c, good) ↦ (ok s, q)
  | inr (e, q, failed) ↦ (err e, q)
]

drawn :
    (rand : ℕ → Result ℕ) (k : ℕ) (p : String)
    → random_bytes rand (suc k) ≡ some (ok p)
    → (n : ℕ) × (rest : String) × (rand k ≡ ok n)
      × (random_bytes rand k ≡ some (ok rest))
      × (String.◌∷◌ (char_at password_alphabet n) rest ≡ p)
unfolding random_bytes
drawn rand k p e = elim (Result-cases (rand k)) [
  | inl (n, q) ↦ elim (Option-cases (random_bytes rand k)) [
    | inl none_left ↦ absurd (ground arith)
    | inr (o, r) ↦ elim (Result-cases o) [
      | inl (rest, t) ↦ (n, rest, q, r ∙ ap some t, ground arith)
      | inr (x, t) ↦ absurd (ground arith)
    ]
  ]
  | inr (x, q) ↦ absurd (ground arith)
]

head_code : String → ℕ
head_code String.[] = 0
head_code (String.◌∷◌ c s) = code c

tail : String → String
tail String.[] = ""
tail (String.◌∷◌ c s) = s

implied : (a b i j : ℕ) → (not (a ==ℕ b) || i ==ℕ j) ≡ true → a ≡ b → i ≡ j
implied a b i j h e = ground arith

-- No character stands twice in the alphabet.
alphabet_distinct :
    (i j : ℕ)
    → i < len password_alphabet
    → j < len password_alphabet
    → code (char_at password_alphabet i) ≡ code (char_at password_alphabet j)
    → i ≡ j
unfolding all_below
alphabet_distinct i j l m e =
    let row =
      all_below_at 62
        (λ a. all_below 62 (λ b.
          not (code (char_at password_alphabet a) ==ℕ code (char_at password_alphabet b))
          || a ==ℕ b))
        i refl l in
    let entry =
      all_below_at 62
        (λ b.
          not (code (char_at password_alphabet i) ==ℕ code (char_at password_alphabet b))
          || i ==ℕ b)
        j row m in
    implied (code (char_at password_alphabet i)) (code (char_at password_alphabet j)) i j entry e

module _ (rand other : ℕ → Result ℕ) (below : DrawsBelow rand)
    (other_below : DrawsBelow other) where
  same_draws :
      (k : ℕ) (p : String)
      → random_bytes rand k ≡ some (ok p)
      → random_bytes other k ≡ some (ok p)
      → (j : ℕ) → j < k
      → rand j ≡ other j
  unfolding head_code tail
  same_draws zero p e f j l = absurd (omega (arith, l))
  same_draws (suc k) p e f j l =
      let a = drawn rand k p e in
      let b = drawn other k p f in
      let same = a.4 ∙ sym b.4 in
      let n : a.0 ≡ b.0 =
        alphabet_distinct a.0 b.0 (below k a.0 a.2) (other_below k b.0 b.2) (ap head_code same) in
      elim (Bool-cases (j ==ℕ k)) [
        | inl t ↦
            let at : k ≡ j = ground arith in
            subst (λ i. rand i ≡ other i) at (a.2 ∙ ap ok n ∙ sym b.2)
        | inr t ↦
            same_draws k a.1 a.3 (b.3 ∙ sym (ap (λ x. some (ok (tail x))) same)) j
              (ground (arith, l))
      ]

  -- Where every draw is below the size of the alphabet, two sequences of draws that give the same
  -- password agree in all 24 draws.
  pub random_password_draws :
      (p : String)
      → random_password rand ≡ some (ok p)
      → random_password other ≡ some (ok p)
      → (j : ℕ) → j < 24
      → rand j ≡ other j
  unfolding random_password
  random_password_draws p e f j l = same_draws 24 p e f j l
