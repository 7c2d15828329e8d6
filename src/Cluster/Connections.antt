-- ===== src/Cluster/Connections.antt =====
-- Cutting the connection of two nodes (`delete_connections` of src/utils.rs).
use distributed_omnipaxos_db.Base.{
  ℕ, ◌≡◌, ◌≢◌, refl, sym, ap, ◌∙◌, Option, none, some, arith, Outcome, ok, err, panic, ℕ_discrete,
  ite, if_pos, if_neg,
}
use distributed_omnipaxos_db.Base.HashMap
use distributed_omnipaxos_db.Base.HashMap.{
  HashMap, AllValues, get-AllValues, get-insert, get-remove,
}
use distributed_omnipaxos_db.Durability.OmniPaxos.{OmniPaxos}
use distributed_omnipaxos_db.Node.State.{Node}
use distributed_omnipaxos_db.Cluster.{
  Nodes, change, cut, save, save_if, then_do, delete_connections,
}

-- A saved connection is put beside those that were saved before.
abbrev pub saved : {Sender : Type 0} → ℕ → Option Sender → HashMap ℕ Sender → HashMap ℕ Sender
saved other none disconnected = disconnected
saved other (some connection) disconnected = HashMap.insert ℕ_discrete other connection disconnected

module _ {P : OmniPaxos} {Sender : Type 0} where
  -- A node whose connection to `other` is cut and kept.
  abbrev pub cut_off : ℕ → Node P Sender → Node P Sender
  cut_off other n = record n {
    connections = HashMap.remove ℕ_discrete other n.connections;
    disconnected_connections =
        saved other (HashMap.get ℕ_discrete other n.connections) n.disconnected_connections;
  }

  change-some :
      {A : Type 0} (id : ℕ) (f : Node P Sender → A × Node P Sender) (nodes : Nodes P Sender)
      (n : Node P Sender)
      → HashMap.get ℕ_discrete id nodes ≡ some n
      → change id f nodes ≡ (ok (f n).0, HashMap.insert ℕ_discrete id (f n).1 nodes)
  unfolding change
  change-some id f nodes n e = rw e refl

  save_if-some :
      (id other : ℕ) (c : Option Sender) (nodes : Nodes P Sender) (n : Node P Sender) (i : ℕ)
      → HashMap.get ℕ_discrete id nodes ≡ some n
      → let (result, nodes') = save_if id other c nodes in
        (result ≡ ok tt)
        × (HashMap.get ℕ_discrete i nodes'
            ≡ ite
                (ℕ_discrete id i)
                (some (record n {
                  disconnected_connections = saved other c n.disconnected_connections;
                }))
                (HashMap.get ℕ_discrete i nodes))
  unfolding save_if
  save_if-some id other none nodes n i e = (
    refl,
    elim (ℕ_discrete id i) [
      | yes same ↦
          ap (λ j. HashMap.get ℕ_discrete j nodes) (sym same)
          ∙ e
          ∙ sym (if_pos (ℕ_discrete id i) same _ _)
      | no different ↦ sym (if_neg (ℕ_discrete id i) different _ _)
    ],
  )
  save_if-some id other (some c) nodes n i e =
      rw (change-some id (save other c) nodes n e) (refl, get-insert ℕ_discrete id i _ nodes)

  then_do-ok :
      {A : Type 0} (p : Outcome ⊥ A × Nodes P Sender)
      (next : A → Nodes P Sender → Outcome ⊥ (Unit {0}) × Nodes P Sender) (a : A)
      → p.0 ≡ ok a
      → then_do p next ≡ next a p.1
  then_do-ok (ok b, nodes) next a e = ap (λ o. then_do (o, nodes) next) e
  then_do-ok (err x, nodes) next a e = absurd x
  then_do-ok (panic, nodes) next a e = absurd (cc)

  module _ (a b : ℕ) (nodes : Nodes P Sender) (na nb : Node P Sender) (different : a ≢ b)
      (at_a : HashMap.get ℕ_discrete a nodes ≡ some na)
      (at_b : HashMap.get ℕ_discrete b nodes ≡ some nb) where
    abbrev nodes1 : Nodes P Sender
    nodes1 = HashMap.insert ℕ_discrete a (cut b na).1 nodes

    b_in_1 : HashMap.get ℕ_discrete b nodes1 ≡ some nb
    b_in_1 = get-insert ℕ_discrete a b _ nodes ∙ if_neg (ℕ_discrete a b) different _ _ ∙ at_b

    abbrev nodes2 : Nodes P Sender
    nodes2 = HashMap.insert ℕ_discrete b (cut a nb).1 nodes1

    a_in_2 : HashMap.get ℕ_discrete a nodes2 ≡ some (cut b na).1
    a_in_2 =
        get-insert ℕ_discrete b a _ nodes1
        ∙ if_neg (ℕ_discrete b a) (λ e. different (sym e)) _ _
        ∙ get-insert ℕ_discrete a a _ nodes
        ∙ if_pos (ℕ_discrete a a) refl _ _

    abbrev nodes3 : Nodes P Sender
    nodes3 = (save_if a b (HashMap.get ℕ_discrete b na.connections) nodes2).1

    in_3 :
        (i : ℕ)
        → HashMap.get ℕ_discrete i nodes3
          ≡ ite (ℕ_discrete a i) (some (cut_off b na)) (HashMap.get ℕ_discrete i nodes2)
    in_3 i =
        (save_if-some a b (HashMap.get ℕ_discrete b na.connections) nodes2 (cut b na).1 i a_in_2).1

    in_2 :
        (i : ℕ)
        → HashMap.get ℕ_discrete i nodes2
          ≡ ite
              (ℕ_discrete b i)
              (some (cut a nb).1)
              (ite (ℕ_discrete a i) (some (cut b na).1) (HashMap.get ℕ_discrete i nodes))
    in_2 i =
        get-insert ℕ_discrete b i _ nodes1
        ∙ ap (ite (ℕ_discrete b i) (some (cut a nb).1)) (get-insert ℕ_discrete a i _ nodes)

    b_in_3 : HashMap.get ℕ_discrete b nodes3 ≡ some (cut a nb).1
    b_in_3 =
        in_3 b
        ∙ if_neg (ℕ_discrete a b) different _ _
        ∙ get-insert ℕ_discrete b b _ nodes1
        ∙ if_pos (ℕ_discrete b b) refl _ _

    steps :
        delete_connections a b nodes ≡ save_if b a (HashMap.get ℕ_discrete a nb.connections) nodes3
    unfolding delete_connections
    steps =
        rw (change-some a (cut b) nodes na at_a, change-some b (cut a) nodes1 nb b_in_1)
          (then_do-ok (save_if a b (HashMap.get ℕ_discrete b na.connections) nodes2) _ tt
            (save_if-some a b (HashMap.get ℕ_discrete b na.connections) nodes2 (cut b na).1 a
              a_in_2).0)

    -- Deleting the connections of two different nodes of the cluster succeeds: each of the two has
    -- its connection to the other cut and kept, where it had one, and no other node changes.
    pub delete_connections_lem :
        (i : ℕ)
        → let (result, nodes') = delete_connections a b nodes in
          (result ≡ ok tt)
          × (HashMap.get ℕ_discrete i nodes'
              ≡ ite
                  (ℕ_discrete a i)
                  (some (cut_off b na))
                  (ite (ℕ_discrete b i) (some (cut_off a nb)) (HashMap.get ℕ_discrete i nodes)))
    delete_connections_lem i =
        let last =
          save_if-some b a (HashMap.get ℕ_discrete a nb.connections) nodes3 (cut a nb).1 i b_in_3 in
        rw steps (last.0, last.1 ∙ ground (arith, in_3 i, in_2 i, different))
