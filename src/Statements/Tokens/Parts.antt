-- ===== src/Statements/Tokens/Parts.antt =====
-- Texts put together of parts, each of which is read as its own tokens.
use serenedb_operator.Prelude.{
  true, ◌≡◌, refl, ap, sym, ◌∙◌, String, List, [], ◌∷◌, ◌++◌, ◌<>◌, join, concat_assoc,
  append_assoc, append-nil,
}
use serenedb_operator.Statements.Tokens.{Token, word, Reads, is_word, is_word-Reads, blank-Reads}
use mathlib.Core.Path.{subst}

-- Each part of a list is read as its own tokens.
abbrev pub AreRead : List String → List (List Token) → Type 0
AreRead [] [] = Unit
AreRead (p ∷ ps) (ts ∷ tss) = Reads p ts × AreRead ps tss
AreRead _ _ = ⊥

abbrev pub all_of : List (List Token) → List Token
all_of [] = []
all_of (ts ∷ tss) = ts ++ all_of tss

join-AreRead :
    (p : String) (ps : List String) (ts : List Token) (tss : List (List Token))
    → Reads p ts
    → AreRead ps tss
    → Reads (join (p ∷ ps) " ") (ts ++ all_of tss)
unfolding join
join-AreRead p [] ts [] r rs = subst (Reads p) (sym (append-nil ts)) r
join-AreRead p [] ts (us ∷ tss) r rs = absurd rs
join-AreRead p (q ∷ ps) ts [] r rs = absurd rs
join-AreRead p (q ∷ ps) ts (us ∷ tss) r (s, rs) =
    blank-Reads p (join (q ∷ ps) " ") ts (us ++ all_of tss) r (join-AreRead q ps us tss s rs)

AreRead-append :
    (ps qs : List String) (tss uss : List (List Token))
    → AreRead ps tss
    → AreRead qs uss
    → AreRead (ps ++ qs) (tss ++ uss)
AreRead-append [] qs [] uss a b = b
AreRead-append [] qs (ts ∷ tss) uss a b = absurd a
AreRead-append (p ∷ ps) qs [] uss a b = absurd a
AreRead-append (p ∷ ps) qs (ts ∷ tss) uss (r, a) b = (r, AreRead-append ps qs tss uss a b)

-- Two words before a token, as one text before it.
pub two_words-Reads :
    (a b p : String) (ts : List Token)
    → is_word a ≡ true
    → is_word b ≡ true
    → Reads p ts
    → Reads ((a <> " " <> b <> " ") <> p) (word a ∷ word b ∷ ts)
two_words-Reads a b p ts ha hb r =
    let same : a <> " " <> (b <> " " <> p) ≡ (a <> " " <> b <> " ") <> p = sym (
      concat_assoc a (" " <> b <> " ") p
      ∙ ap (λ s. a <> s)
          (concat_assoc " " (b <> " ") p ∙ ap (λ s. " " <> s) (concat_assoc b " " p))) in
    subst (λ s. Reads s (word a ∷ word b ∷ ts)) same
      (blank-Reads a (b <> " " <> p) (word a ∷ []) (word b ∷ ts) (is_word-Reads a ha)
        (blank-Reads b p (word b ∷ []) ts (is_word-Reads b hb) r))

-- What a part that may be missing is read as.
abbrev pub PartRead : List String → List Token → Type 0
PartRead ps ts = (tss : List (List Token)) × AreRead ps tss × (all_of tss ≡ ts)

all_of-append : (tss uss : List (List Token)) → all_of (tss ++ uss) ≡ all_of tss ++ all_of uss
all_of-append [] uss = refl
all_of-append (ts ∷ tss) uss =
    ap (λ vs. ts ++ vs) (all_of-append tss uss) ∙ sym (append_assoc ts (all_of tss) (all_of uss))

pub PartRead-append :
    (ps qs : List String) (ts us : List Token)
    → PartRead ps ts
    → PartRead qs us
    → PartRead (ps ++ qs) (ts ++ us)
PartRead-append ps qs ts us (tss, r, e) (uss, r', e') = (
  tss ++ uss,
  AreRead-append ps qs tss uss r r',
  all_of-append tss uss ∙ ap (λ vs. vs ++ all_of uss) e ∙ ap (λ vs. ts ++ vs) e',
)

pub PartRead-cons :
    (p : String) (ps : List String) (ts us : List Token)
    → Reads p ts
    → PartRead ps us
    → PartRead (p ∷ ps) (ts ++ us)
PartRead-cons p ps ts us r (tss, rs, e) = (ts ∷ tss, (r, rs), ap (λ vs. ts ++ vs) e)

pub join-PartRead :
    (p : String) (ps : List String) (ts us : List Token)
    → Reads p ts
    → PartRead ps us
    → Reads (join (p ∷ ps) " ") (ts ++ us)
join-PartRead p ps ts us r (tss, rs, e) =
    subst (λ vs. Reads (join (p ∷ ps) " ") (ts ++ vs)) e (join-AreRead p ps ts tss r rs)
