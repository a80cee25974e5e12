-- ===== src/SqlExec/Connection/Laws.antt =====
-- internal/sqlexec/session.go: the loop of `Query`, on a result set that behaves as a cursor.
use serenedb_operator.Errors.{ok, err, Err, Result}
use serenedb_operator.Prelude.{
  refl, inl, inr, Option-cases, arith, inr, inl, Option-cases, zero, suc, [], ◌∷◌, none, some, true,
  false, map, ◌++◌, suc, true, false, arith, ◌∷◌, ◌<◌, [], length, some, none, String, ℕ, Option,
  List, ◌≡◌,
}
use serenedb_operator.SqlExec.Connection.{Pgx, Answer, read_rows, query}

-- What pgx documents of a result set: `Next` prepares the next row while one is left, `Values` reads the
-- row that it prepared, and behind the last row `Err` tells the error that ended the reading.
pub record IsCursor (pgx : Pgx) : Type 0 where
  pub remaining : pgx.Rows → pgx.State → List (Result (List pgx.Value))
  pub ending : pgx.Rows → pgx.State → Option Err
  pub next_more :
      (r : pgx.Rows) (s : pgx.State) (x : Result (List pgx.Value))
      (xs : List (Result (List pgx.Value)))
      → remaining r s ≡ x ∷ xs
      → ((pgx.next r s).0 ≡ true)
        × ((pgx.values r (pgx.next r s).1).0 ≡ x)
        × (remaining r (pgx.values r (pgx.next r s).1).1 ≡ xs)
        × (ending r (pgx.values r (pgx.next r s).1).1 ≡ ending r s)
  pub next_end :
      (r : pgx.Rows) (s : pgx.State)
      → remaining r s ≡ []
      → ((pgx.next r s).0 ≡ false) × (pgx.rows_err r (pgx.next r s).1 ≡ ending r s)

module _ (pgx : Pgx) where
  -- The answer that the rows of a result set ask for: the first row that cannot be read is the only
  -- result, and else every row comes in order, column for column, with the error at the end.
  unfoldable pub read_all :
      List (List String) → List (Result (List pgx.Value)) → Option Err → Answer
  read_all out [] e = (out, e)
  read_all out (err x ∷ rest) e = ([], some x)
  read_all out (ok vs ∷ rest) e = read_all (out ++ map pgx.sprint vs ∷ []) rest e

  abbrev pub answer_of : Option (Answer × pgx.State) → Option Answer
  answer_of none = none
  answer_of (some (a, s)) = some a

  module _ (cursor : IsCursor pgx) where
    read_rows-read_all :
        (fuel : ℕ) (r : pgx.Rows) (out : List (List String)) (s : pgx.State)
        (xs : List (Result (List pgx.Value)))
        → cursor.remaining r s ≡ xs
        → length xs < fuel
        → answer_of (read_rows pgx fuel r out s) ≡ some (read_all out xs (cursor.ending r s))
    unfolding read_rows read_all
    read_rows-read_all zero r out s xs e h = absurd (omega (arith, h))
    read_rows-read_all (suc fuel) r out s [] e h =
        let (stop, last) = cursor.next_end r s e in ground arith
    read_rows-read_all (suc fuel) r out s (err x ∷ xs) e h =
        let (more, got, rest, same) = cursor.next_more r s (err x) xs e in ground arith
    read_rows-read_all (suc fuel) r out s (ok vs ∷ xs) e h =
        let (more, got, rest, same) = cursor.next_more r s (ok vs) xs e in
        ground (
          arith,
          read_rows-read_all fuel r (out ++ map pgx.sprint vs ∷ [])
              (pgx.values r (pgx.next r s).1).1 xs rest (omega (arith, h)),
        )

    -- A query that the server takes is answered within as many rounds as it has rows and one more: by
    -- every row in order, column for column, with the error that ended the reading, or, from the
    -- first row that cannot be read, by its error alone.
    pub query-read_all :
        (fuel : ℕ) (conn : pgx.Conn) (text : String) (s s1 : pgx.State) (r : pgx.Rows)
        → pgx.query conn text s ≡ (ok r, s1)
        → length (cursor.remaining r s1) < fuel
        → answer_of (query pgx fuel conn text s)
          ≡ some (read_all [] (cursor.remaining r s1) (cursor.ending r s1))
    unfolding query
    query-read_all fuel conn text s s1 r e h =
        let read = read_rows-read_all fuel r [] s1 (cursor.remaining r s1) refl h in
        elim (Option-cases (read_rows pgx fuel r [] s1)) [
          | inl p ↦ absurd (ground arith)
          | inr (a, p) ↦ ground arith
        ]
