-- ===== src/Examples/Starting.antt =====
-- Starting a cluster of three servers.
use distributed_omnipaxos_db.Base.{
  ℕ, ◌≡◌, refl, none, List, [], ◌∷◌, arith, ok, err, Outcome, inl, inr, ◌↔◌, ◌==◌, if◌then◌else◌,
}
use distributed_omnipaxos_db.Base.HashMap.{HashMap}
use distributed_omnipaxos_db.Node.State.{Node}
use distributed_omnipaxos_db.Cluster.{spawn_nodes}
use distributed_omnipaxos_db.Cluster.Spawning.{In, Once, Builds, Linked, spawn_nodes_lem}
use distributed_omnipaxos_db.Main
use distributed_omnipaxos_db.Main.{main, main_lem}
use distributed_omnipaxos_db.Examples.Data.{memory_paxos}

abbrev servers : List ℕ
servers = 1 ∷ 2 ∷ 3 ∷ []

one_new : ¬ In 1 (2 ∷ 3 ∷ [])
one_new (inl e) = omega (arith, e)
one_new (inr (inl e)) = omega (arith, e)
one_new (inr (inr i)) = i

two_new : ¬ In 2 (3 ∷ [])
two_new (inl e) = omega (arith, e)
two_new (inr i) = i

servers-Once : Once servers
servers-Once = (one_new, (two_new, ((λ i. i), tt)))

servers-Builds : Builds memory_paxos servers
servers-Builds id i = (record { entries = []; pending = []; leader = none }, refl)

spawn_nodes_lem_example :
    (nodes : HashMap ℕ (Node memory_paxos ℕ × ℕ)) × (spawn_nodes memory_paxos servers ≡ ok nodes)
    × ((a b : ℕ) → In a servers → In b servers → Linked memory_paxos nodes a b)
spawn_nodes_lem_example = spawn_nodes_lem memory_paxos servers servers-Once servers-Builds

-- The five servers of the program; the task of the third one panics.
five-Builds : Builds memory_paxos Main.servers
five-Builds id i = (record { entries = []; pending = []; leader = none }, refl)

abbrev third_fails : ℕ → Outcome ℕ (Unit {0})
third_fails id = if id == 3 then err id else ok tt

main_lem_example :
    (main memory_paxos third_fails ≡ ok tt)
    ↔ ((id : ℕ) → In id Main.servers → third_fails id ≡ ok tt)
main_lem_example = main_lem memory_paxos third_fails five-Builds
