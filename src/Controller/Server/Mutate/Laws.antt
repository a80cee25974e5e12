-- ===== src/Controller/Server/Mutate/Laws.antt =====
-- What the updates of owned objects in internal/controller/serenedb_controller.go keep.
use serenedb_operator.Prelude.{
  get_or, ◌==ℕ◌, ◌∙◌, none, map, if◌then◌else◌, Option, ℕ, ◌≡◌, refl, String, false, some, List, [],
  ◌∷◌, arith, ◌==◌, eq_iff, All,
}
use serenedb_operator.Prelude.Dict.{Dict, lookup, insert, lookup-insert}
use serenedb_operator.Prelude.Dict.Laws.{IsDistinct, lookup-copy, or_else}
use serenedb_operator.Api.Core.{ServicePort}
use serenedb_operator.Controller.Server.Mutate.{
  merge_maps, assigned_ports, keep_node_port, keep_node_ports, keep_assigned_node_ports,
}

-- A merge of desired keys, which are distinct, holds each of them with its desired value, and every
-- other key as it was.
pub merge_maps_keeps :
    (k : String) (current desired : Dict String)
    → IsDistinct desired
    → lookup k (merge_maps current desired) ≡ or_else (lookup k desired) (lookup k current)
unfolding merge_maps
merge_maps_keeps k current desired d = lookup-copy k current desired d

-- No two ports have one name.
abbrev pub HasDistinctNames : List ServicePort → Type 0
HasDistinctNames [] = Unit
HasDistinctNames (p ∷ ports) = All (λ q. (q.name == p.name) ≡ false) ports × HasDistinctNames ports

assigned_of_kept :
    (assigned m : Dict ℕ) (n : String) (ports : List ServicePort)
    → All (λ q. (q.name == n) ≡ false) ports
    → lookup n (assigned_ports m (keep_node_ports assigned ports)) ≡ lookup n m
unfolding assigned_ports keep_node_ports keep_node_port
assigned_of_kept assigned m n [] a = refl
assigned_of_kept assigned m n (p ∷ ports) (h, a) = ground (
  arith,
  assigned_of_kept assigned (insert p.name (keep_node_port assigned p).node_port m) n ports a,
  lookup-insert p.name n (keep_node_port assigned p).node_port m,
)

keep_node_port_name :
    (assigned : Dict ℕ) (p : ServicePort) → (keep_node_port assigned p).name ≡ p.name
unfolding keep_node_port
keep_node_port_name assigned p = ground arith

keep_node_port_twice :
    (assigned m : Dict ℕ) (p : ServicePort)
    → lookup p.name m ≡ some (keep_node_port assigned p).node_port
    → keep_node_port m p ≡ keep_node_port assigned p
unfolding keep_node_port
keep_node_port_twice assigned m p h = ground arith

keep_again :
    (assigned m : Dict ℕ) (ports : List ServicePort)
    → HasDistinctNames ports
    → keep_node_ports (assigned_ports m (keep_node_ports assigned ports)) ports
      ≡ keep_node_ports assigned ports
unfolding assigned_ports keep_node_ports
keep_again assigned m [] d = refl
keep_again assigned m (p ∷ ports) (a, d) =
    let kept = keep_node_port assigned p in
    let m' = insert kept.name kept.node_port m in
    cc (
      keep_again assigned m' ports d,
      keep_node_port_twice assigned (assigned_ports m' (keep_node_ports assigned ports)) p (
          ground (
            arith,
            eq_iff p.name p.name,
            keep_node_port_name assigned p,
            assigned_of_kept assigned m' p.name ports a,
            lookup-insert kept.name p.name kept.node_port m,
          )),
    )

-- The node port of the port of this name, searched for from the first on; 0 where there is none.
abbrev pub port_named : String → List ServicePort → Option ℕ
port_named n [] = none
port_named n (p ∷ ports) = if p.name == n then some p.node_port else port_named n ports

-- What a desired port becomes: one with a number of its own stays, and one without takes the number
-- that the port of its name has.
abbrev pub with_port_of : List ServicePort → ServicePort → ServicePort
with_port_of current p = record p {
  node_port = if p.node_port ==ℕ 0 then get_or 0 (port_named p.name current) else p.node_port;
}

port_named-none :
    (n : String) (ports : List ServicePort)
    → All (λ q. (q.name == n) ≡ false) ports
    → port_named n ports ≡ none
port_named-none n [] a = refl
port_named-none n (p ∷ ports) (h, a) = ground (arith, port_named-none n ports a)

lookup-assigned_ports :
    (n : String) (m : Dict ℕ) (ports : List ServicePort)
    → HasDistinctNames ports
    → lookup n (assigned_ports m ports) ≡ or_else (port_named n ports) (lookup n m)
unfolding assigned_ports
lookup-assigned_ports n m [] d = refl
lookup-assigned_ports n m (p ∷ ports) (a, d) =
    lookup-assigned_ports n (insert p.name p.node_port m) ports d
    ∙ ground (
      arith,
      lookup-insert p.name n p.node_port m,
      eq_iff p.name n,
      port_named-none p.name ports a,
    )

keep_node_ports_lem :
    (current ports : List ServicePort)
    → HasDistinctNames current
    → keep_node_ports (assigned_ports [] current) ports ≡ map (with_port_of current) ports
unfolding keep_node_ports keep_node_port lookup
keep_node_ports_lem current [] d = refl
keep_node_ports_lem current (p ∷ ports) d =
    ground (arith, keep_node_ports_lem current ports d, lookup-assigned_ports p.name [] current d)

-- Where the current and the desired ports have distinct names each, every desired port with a node port
-- of its own keeps it, every other one takes the node port that the current port of its name has, or
-- 0 where there is none, and nothing else of a port changes; and keeping the node ports once more,
-- over the ports of the first update, changes nothing.
pub keep_assigned_node_ports_keeps :
    (current desired : List ServicePort)
    → HasDistinctNames current
    → HasDistinctNames desired
    → (keep_assigned_node_ports current desired ≡ map (with_port_of current) desired)
      × (keep_assigned_node_ports (keep_assigned_node_ports current desired) desired
          ≡ keep_assigned_node_ports current desired)
unfolding keep_assigned_node_ports
keep_assigned_node_ports_keeps current desired c d =
    (keep_node_ports_lem current desired c, keep_again (assigned_ports [] current) [] desired d)
