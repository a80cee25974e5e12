-- ===== src/Controller/Role/Memberships.antt =====
-- The memberships that `converge` of internal/controller/databaserole_controller.go leaves.
use mathlib.Core.HLevel.{hedberg}
use serenedb_operator.Prelude.{
  ◌≡◌, refl, ap, ◌∙◌, String, Bool, true, false, arith, ◌∷◌, List, [], map, not, ◌&&◌, ◌||◌, inl,
  inr, none,
}
use serenedb_operator.Prelude.Dict.{Dict, insert, lookup}
use mathlib.Core.Logic.{∥∥₁_elim}
use mathlib.Core.List.{Perm, Permᴰ}
use serenedb_operator.Errors.{ok, Result-cases}
use serenedb_operator.Statements.{role_memberships, grant_membership, revoke_membership}
use serenedb_operator.Controller.Kube.{Env, History, query}
use serenedb_operator.Controller.Op.{done, ◌>>=◌, ◌>>◌}
use serenedb_operator.Controller.Trace.{bind_done}
use serenedb_operator.Controller.Role.Converge.{
  converge, current_of, desired_of, grant_missing, revoke_unlisted, is_set, range,
}
use serenedb_operator.Controller.Role.Laws.{
  run_all, grants, revokes, holds, grant_missing_runs, revoke_unlisted_runs, is_set-insert,
  is_set-desired_of, holds-filter, holds-keys,
}

holds_of_permᴰ : (g : String) {xs ys : List String} → Permᴰ xs ys → holds g xs ≡ holds g ys
holds_of_permᴰ g Permᴰ.nil = refl
holds_of_permᴰ g (Permᴰ.cons e p) = cc (holds_of_permᴰ g p, e)
holds_of_permᴰ g (Permᴰ.swap {a = x} {b = y} {l = l} e f) = rw (← e, ← f) (ground arith)
holds_of_permᴰ g (Permᴰ.trans p q) = holds_of_permᴰ g p ∙ holds_of_permᴰ g q

Bool-discrete : Discrete Bool
Bool-discrete true true = yes refl
Bool-discrete true false = no (λ e. cc)
Bool-discrete false true = no (λ e. cc)
Bool-discrete false false = yes refl

holds_of_perm : (g : String) (xs ys : List String) → Perm xs ys → holds g xs ≡ holds g ys
holds_of_perm g xs ys p = ∥∥₁_elim p (hedberg Bool-discrete _ _) (holds_of_permᴰ g)

-- The first columns of the rows.
abbrev pub firsts : List (List String) → List String
firsts [] = []
firsts ([] ∷ rows) = firsts rows
firsts ((g ∷ columns) ∷ rows) = g ∷ firsts rows

current_of_reads :
    (m c : Dict Bool) (rows : List (List String)) (h h' : History)
    → current_of m rows h ≡ (done c, h')
    → (h' ≡ h) × ((g : String) → is_set g c ≡ is_set g m || holds g (firsts rows))
unfolding current_of
current_of_reads m c [] h h' e = (ground arith, λ g. ground arith)
current_of_reads m c ([] ∷ rows) h h' e = absurd (ground arith)
current_of_reads m c ((k ∷ columns) ∷ rows) h h' e =
    let (p, q) = current_of_reads (insert k true m) c rows h h' e in
    (p, λ g. ground (arith, q g, is_set-insert g k m))

module _ (env : Env) (name : String) (wanted : List String) where
  -- The memberships behind the statements of `converge`.
  abbrev pub after : Dict Bool → List String → String → Bool
  after current groups g =
      (is_set g current || holds g (grants env current wanted))
      && not (holds g (revokes env (desired_of [] wanted) groups))

  after_lem :
      (current : Dict Bool) (groups : List String)
      → Perm groups (map (λ e. e.0) current)
      → (g : String) → after current groups g ≡ holds g wanted
  unfolding lookup
  after_lem current groups p g = ground (
    arith,
    holds_of_perm g groups (map (λ e. e.0) current) p,
    holds-keys g current,
    holds-filter (λ k. not (is_set k current)) g wanted,
    holds-filter (λ k. not (is_set k (desired_of [] wanted))) g groups,
    is_set-desired_of g [] wanted,
  )

  -- The statements of `converge`, run behind a history.
  abbrev pub converged : Dict Bool → List String → History → History
  converged current groups h =
      run_all
        (map (λ g. revoke_membership env.lib.sanitize g name)
          (revokes env (desired_of [] wanted) groups))
        (run_all (map (λ g. grant_membership env.lib.sanitize g name) (grants env current wanted))
          h)

  -- What `converge` reaches behind the history of its query.
  abbrev pub Reached : List (List String) → (h h' : History) → Type 0
  Reached rows h h' =
      (current : Dict Bool) × (groups : List String) × ((g : String)
        → is_set g current ≡ holds g (firsts rows))
      × ((g : String) → after current groups g ≡ holds g wanted)
      × (h' ≡ converged current groups h)

  module _ (iterates : (h : History) (keys : List String) → Perm (env.iterate h keys) keys) where
    with_current :
        (current : Dict Bool) (h h' : History)
        → (grant_missing env current name wanted
              >> (range env current >>= revoke_unlisted env (desired_of [] wanted) name))
            h
          ≡ (done tt, h')
        → (groups : List String) × ((g : String) → after current groups g ≡ holds g wanted)
          × (h' ≡ converged current groups h)
    with_current current h h' e =
        let (u, h3, e3, f3) = bind_done (grant_missing env current name wanted) _ tt h h' e in
        let groups = env.iterate h3 (map (λ e. e.0) current) in
        (
          groups,
          after_lem current groups (iterates h3 (map (λ e. e.0) current)),
          revoke_unlisted_runs env (desired_of [] wanted) name groups h3 h' f3
              ∙ ap
                  (run_all (
                    map (λ g. revoke_membership env.lib.sanitize g name)
                      (revokes env (desired_of [] wanted) groups)))
                  (grant_missing_runs env current name wanted h h3 e3),
        )

    with_rows :
        (rows : List (List String)) (h h' : History)
        → (current_of [] rows >>= λ current.
              grant_missing env current name wanted
              >> (range env current >>= revoke_unlisted env (desired_of [] wanted) name))
            h
          ≡ (done tt, h')
        → Reached rows h h'
    unfolding lookup
    with_rows rows h h' e =
        let (current, h2, e2, f2) = bind_done (current_of [] rows) _ tt h h' e in
        let (same, reads) = current_of_reads [] current rows h h2 e2 in
        let (groups, reaches, runs) = with_current current h2 h' f2 in
        (current, groups, reads, reaches, runs ∙ ap (converged current groups) same)

    -- Where `converge` comes to its end, it has run the grants that are missing and then the
    -- revokes of what is not listed, and the memberships that the server reported, with those
    -- grants and without those revokes, are exactly the groups listed, where a map is iterated over
    -- each of its keys once, in any order.
    pub converge_reaches :
        (h h' : History)
        → converge env name wanted h ≡ (done tt, h')
        → (q : String) × (rows : List (List String)) × (role_memberships name ≡ ok q)
          × (env.rows h q ≡ ok rows)
          × Reached rows (record { call = query q; error = none } ∷ h) h'
    unfolding converge
    converge_reaches h h' e = elim (Result-cases (role_memberships name)) [
      | inr (x, p) ↦ absurd (ground arith)
      | inl (q, p) ↦ elim (Result-cases (env.rows h q)) [
        | inr (x, r) ↦ absurd (ground arith)
        | inl (rows, r) ↦ (
          q,
          rows,
          p,
          r,
          with_rows rows (record { call = query q; error = none } ∷ h) h' (ground arith),
        )
      ]
    ]
