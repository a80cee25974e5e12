-- ===== src/Controller/Role/Laws.antt =====
-- What `apply` of internal/controller/databaserole_controller.go does to a role: the password that goes
-- into the statement, and the memberships that `converge` leaves.
use serenedb_operator.Prelude.{
  is_some, ◌≡◌, inl, inr, String, Bool, true, none, some, Option, arith, ◌∷◌, List, [], map, not,
  ◌&&◌, ◌||◌, ◌==◌, Bool-cases, filter, any, eq_iff,
}
use serenedb_operator.Prelude.Dict.{Dict, lookup, insert, lookup-insert}
use serenedb_operator.Statements.{RoleAttributes, grant_membership, revoke_membership}
use serenedb_operator.Controller.Kube.{Env, History, exec}
use serenedb_operator.Controller.Op.{done}
use serenedb_operator.Controller.Role.{with_password}
use serenedb_operator.Controller.Role.Converge.{
  desired_of, grant_one, grant_missing, revoke_one, revoke_unlisted, is_set,
}

-- Attributes without a password get one exactly where one is given and either the role is new or
-- the version of its Secret differs from the one that was applied; all other attributes stay.
with_password_lem :
    (attrs : RoleAttributes) (password : Option String) (present : Bool) (version applied : String)
    → attrs.password ≡ none
    → (is_some (with_password attrs password present version applied).password
        ≡ is_some password && (not present || not (version == applied)))
      × (record (with_password attrs password present version applied) { password = none } ≡ attrs)
unfolding with_password
with_password_lem attrs none present version applied h = (ground arith, ground arith)
with_password_lem attrs (some p) present version applied h = (ground arith, ground arith)

-- The statements of a list, run one after the other without an error.
abbrev pub run_all : List String → History → History
run_all [] h = h
run_all (s ∷ statements) h = run_all statements (record { call = exec s; error = none } ∷ h)

module _ (env : Env) where
  -- The groups that `converge` grants, and those that it revokes.
  abbrev pub grants : Dict Bool → List String → List String
  grants current wanted = filter (λ g. not (is_set g current)) wanted

  abbrev pub revokes : Dict Bool → List String → List String
  revokes desired groups = filter (λ g. not (is_set g desired)) groups

  pub grant_missing_runs :
      (current : Dict Bool) (name : String) (wanted : List String) (h h' : History)
      → grant_missing env current name wanted h ≡ (done tt, h')
      → h' ≡ run_all (map (λ g. grant_membership env.lib.sanitize g name) (grants current wanted)) h
  unfolding grant_missing grant_one
  grant_missing_runs current name [] h h' e = ground arith
  grant_missing_runs current name (g ∷ wanted) h h' e = elim (Bool-cases (is_set g current)) [
    | inl t ↦ rw t (grant_missing_runs current name wanted h h' (ground arith))
    | inr t ↦ rw t (
        grant_missing_runs current name wanted
          (record { call = exec (grant_membership env.lib.sanitize g name); error = none } ∷ h) h'
          (ground arith))
  ]

  pub revoke_unlisted_runs :
      (desired : Dict Bool) (name : String) (groups : List String) (h h' : History)
      → revoke_unlisted env desired name groups h ≡ (done tt, h')
      → h'
        ≡ run_all (map (λ g. revoke_membership env.lib.sanitize g name) (revokes desired groups)) h
  unfolding revoke_unlisted revoke_one
  revoke_unlisted_runs desired name [] h h' e = ground arith
  revoke_unlisted_runs desired name (g ∷ groups) h h' e = elim (Bool-cases (is_set g desired)) [
    | inl t ↦ rw t (revoke_unlisted_runs desired name groups h h' (ground arith))
    | inr t ↦ rw t (
        revoke_unlisted_runs desired name groups
          (record { call = exec (revoke_membership env.lib.sanitize g name); error = none } ∷ h) h'
          (ground arith))
  ]

-- Whether a text stands in a list.
abbrev pub holds : String → List String → Bool
holds g = any (λ w. w == g)

pub is_set-insert :
    (g k : String) (m : Dict Bool) → is_set g (insert k true m) ≡ (k == g) || is_set g m
is_set-insert g k m = ground (arith, lookup-insert k g true m)

pub is_set-desired_of :
    (g : String) (m : Dict Bool) (wanted : List String)
    → is_set g (desired_of m wanted) ≡ is_set g m || holds g wanted
unfolding desired_of
is_set-desired_of g m [] = ground arith
is_set-desired_of g m (w ∷ wanted) =
    ground (arith, is_set-desired_of g (insert w true m) wanted, is_set-insert g w m)

pub holds-filter :
    (p : String → Bool) (g : String) (l : List String) → holds g (filter p l) ≡ p g && holds g l
holds-filter p g [] = ground arith
holds-filter p g (x ∷ l) = elim (Bool-cases (x == g)) [
  | inl e ↦ rw ((eq_iff x g).0 e) (ground (arith, holds-filter p g l))
  | inr e ↦ ground (arith, holds-filter p g l)
]

-- A key that is set stands among the keys.
pub holds-keys :
    (g : String) (m : Dict Bool) → is_set g m ≡ true → holds g (map (λ e. e.0) m) ≡ true
unfolding lookup
holds-keys g [] h = ground arith
holds-keys g ((k, v) ∷ m) h = ground (arith, holds-keys g m)
