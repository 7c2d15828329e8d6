-- ===== src/Cluster/Reconnect.antt =====
-- Connecting again what was cut (`reconnect_nodes` of src/utils.rs).
use distributed_omnipaxos_db.Base.{
  ℕ, ◌≡◌, ◌≢◌, refl, sym, ap, ◌∙◌, Option, none, some, [], ◌∷◌, arith, ℕ_discrete, ite, if_pos,
  if_neg, Option-cases, inl, inr,
}
use distributed_omnipaxos_db.Base.HashMap
use distributed_omnipaxos_db.Base.HashMap.{
  HashMap, AllValues, get-AllValues, get-insert, get-remove,
}
use distributed_omnipaxos_db.Durability.OmniPaxos.{OmniPaxos}
use distributed_omnipaxos_db.Node.State.{Node}
use distributed_omnipaxos_db.Cluster.{
  Nodes, delete_connections, reconnect, reconnect_node, reconnect_nodes,
}
use distributed_omnipaxos_db.Cluster.Connections.{saved, cut_off, delete_connections_lem}

put_back :
    {Sender : Type 0} (other j : ℕ) (c : Option Sender) (connections : HashMap ℕ Sender)
    → HashMap.get ℕ_discrete other connections ≡ c
    → HashMap.get ℕ_discrete j
        (reconnect (saved other c []) (HashMap.remove ℕ_discrete other connections))
      ≡ HashMap.get ℕ_discrete j connections
unfolding reconnect HashMap.insert
put_back other j none connections e = ground (arith, e, get-remove ℕ_discrete other j connections)
put_back other j (some c) connections e = ground (
  arith,
  e,
  get-insert ℕ_discrete other j c (HashMap.remove ℕ_discrete other connections),
  get-remove ℕ_discrete other j connections,
)

module _ {P : OmniPaxos} {Sender : Type 0} where
  abbrev pub connection_in : Option (Node P Sender) → ℕ → Option Sender
  connection_in none j = none
  connection_in (some n) j = HashMap.get ℕ_discrete j n.connections

  -- The channel from node `i` to node `j`.
  abbrev pub connection : Nodes P Sender → ℕ → ℕ → Option Sender
  connection nodes i j = connection_in (HashMap.get ℕ_discrete i nodes) j

  abbrev pub HasNoDisconnected : Node P Sender → Type 0
  HasNoDisconnected n = n.disconnected_connections ≡ []

  get-reconnect_nodes :
      (nodes : Nodes P Sender) (i : ℕ) (n : Node P Sender)
      → HashMap.get ℕ_discrete i nodes ≡ some n
      → HashMap.get ℕ_discrete i (reconnect_nodes nodes) ≡ some (reconnect_node n)
  unfolding reconnect_nodes HashMap.get
  get-reconnect_nodes [] i n e = absurd (cc e)
  get-reconnect_nodes ((k, m) ∷ nodes) i n e = ground (arith, get-reconnect_nodes nodes i n)

  get-reconnect_nodes-none :
      (nodes : Nodes P Sender) (i : ℕ)
      → HashMap.get ℕ_discrete i nodes ≡ none
      → HashMap.get ℕ_discrete i (reconnect_nodes nodes) ≡ none
  unfolding reconnect_nodes HashMap.get
  get-reconnect_nodes-none [] i e = refl
  get-reconnect_nodes-none ((k, m) ∷ nodes) i e = ground (arith, get-reconnect_nodes-none nodes i)

  cut_off-back :
      (other j : ℕ) (n : Node P Sender)
      → HasNoDisconnected n
      → HashMap.get ℕ_discrete j (reconnect_node (cut_off other n)).connections
        ≡ HashMap.get ℕ_discrete j n.connections
  unfolding reconnect_node
  cut_off-back other j n none_cut =
      rw none_cut (put_back other j (HashMap.get ℕ_discrete other n.connections) n.connections refl)

  whole-back :
      (n : Node P Sender) → HasNoDisconnected n → (reconnect_node n).connections ≡ n.connections
  unfolding reconnect_node reconnect
  whole-back n none_cut = rw none_cut refl

  -- A lookup in a cluster after a call, for a node that the call may have cut off from `other`.
  back :
      (other i j : ℕ) (nodes nodes' : Nodes P Sender) (n : Node P Sender)
      → HashMap.get ℕ_discrete i nodes' ≡ some (cut_off other n)
      → HashMap.get ℕ_discrete i nodes ≡ some n
      → HasNoDisconnected n
      → connection (reconnect_nodes nodes') i j ≡ connection nodes i j
  back other i j nodes nodes' n e' e none_cut =
      rw (get-reconnect_nodes nodes' i _ e', e) (cut_off-back other j n none_cut)

  untouched :
      (i j : ℕ) (nodes nodes' : Nodes P Sender)
      → HashMap.get ℕ_discrete i nodes' ≡ HashMap.get ℕ_discrete i nodes
      → AllValues HasNoDisconnected nodes
      → connection (reconnect_nodes nodes') i j ≡ connection nodes i j
  untouched i j nodes nodes' e v = elim (Option-cases (HashMap.get ℕ_discrete i nodes)) [
    | inl absent ↦ rw (get-reconnect_nodes-none nodes' i (e ∙ absent), absent) refl
    | inr (n, found) ↦
        rw (get-reconnect_nodes nodes' i n (e ∙ found), found)
          (ap (HashMap.get ℕ_discrete j)
            (whole-back n (get-AllValues ℕ_discrete HasNoDisconnected i n nodes v found)))
  ]

  -- In a cluster without disconnected connections, deleting the connections of two different nodes
  -- and connecting again leaves every node with the channels that it had.
  pub reconnect-delete_connections :
      (a b : ℕ) (nodes : Nodes P Sender) (na nb : Node P Sender) (i j : ℕ)
      → a ≢ b
      → HashMap.get ℕ_discrete a nodes ≡ some na
      → HashMap.get ℕ_discrete b nodes ≡ some nb
      → AllValues HasNoDisconnected nodes
      → connection (reconnect_nodes (delete_connections a b nodes).1) i j ≡ connection nodes i j
  reconnect-delete_connections a b nodes na nb i j different at_a at_b v = elim (ℕ_discrete a i) [
    | yes same ↦
        back b i j nodes _ na (at_i ∙ if_pos (ℕ_discrete a i) same _ _)
          (ap (λ k. HashMap.get ℕ_discrete k nodes) (sym same) ∙ at_a)
          (get-AllValues ℕ_discrete HasNoDisconnected a na nodes v at_a)
    | no other ↦ elim (ℕ_discrete b i) [
      | yes same ↦
          back a i j nodes _ nb
            (at_i ∙ if_neg (ℕ_discrete a i) other _ _ ∙ if_pos (ℕ_discrete b i) same _ _)
            (ap (λ k. HashMap.get ℕ_discrete k nodes) (sym same) ∙ at_b)
            (get-AllValues ℕ_discrete HasNoDisconnected b nb nodes v at_b)
      | no neither ↦
          untouched i j nodes _
            (at_i ∙ if_neg (ℕ_discrete a i) other _ _ ∙ if_neg (ℕ_discrete b i) neither _ _) v
    ]
  ]
    where
      at_i :
          HashMap.get ℕ_discrete i (delete_connections a b nodes).1
          ≡ ite
              (ℕ_discrete a i)
              (some (cut_off b na))
              (ite (ℕ_discrete b i) (some (cut_off a nb)) (HashMap.get ℕ_discrete i nodes))
      at_i = (delete_connections_lem a b nodes na nb different at_a at_b i).1
