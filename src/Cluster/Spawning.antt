-- ===== src/Cluster/Spawning.antt =====
-- Starting a cluster (`spawn_nodes` of src/utils.rs).
use distributed_omnipaxos_db.Base.{
  ℕ, ◌+◌, ◌≤◌, ◌≡◌, ◌≢◌, refl, sym, ap, ◌∙◌, subst, true, false, Option, none, some, List, [], ◌∷◌,
  arith, ok, ℕ_discrete, ite, if_pos, if_neg, inl, inr, ◌⊎◌,
}
use distributed_omnipaxos_db.Base.HashMap
use distributed_omnipaxos_db.Base.HashMap.{HashMap, get-insert, get-remove}
use distributed_omnipaxos_db.Durability.OmniPaxos.{OmniPaxos}
use distributed_omnipaxos_db.Durability.OmniPaxosDurability
use distributed_omnipaxos_db.Datastore.State as Datastore_State
use distributed_omnipaxos_db.Node.State
use distributed_omnipaxos_db.Node.State.{Node}
use distributed_omnipaxos_db.Cluster.{initialise_channels, spawn, spawn_nodes}

abbrev pub In : ℕ → List ℕ → Type 0
In x [] = ⊥
In x (y ∷ ys) = (y ≡ x) ⊎ In x ys

-- No server is listed twice.
abbrev pub Once : List ℕ → Type 0
Once [] = Unit
Once (x ∷ xs) = (¬ In x xs) × Once xs

abbrev channels : List ℕ → ℕ → HashMap ℕ ℕ → HashMap ℕ ℕ
channels servers next made = (initialise_channels servers next made).0

same_channels :
    (servers : List ℕ) (next : ℕ) (made : HashMap ℕ ℕ)
    → initialise_channels servers next made
      ≡ (channels servers next made, channels servers next made)
unfolding initialise_channels
same_channels [] next made = refl
same_channels (x ∷ xs) next made =
    same_channels xs (next + 1) (HashMap.insert ℕ_discrete x next made)

get-channels_other :
    (servers : List ℕ) (next : ℕ) (made : HashMap ℕ ℕ) (j : ℕ)
    → ¬ In j servers
    → HashMap.get ℕ_discrete j (channels servers next made) ≡ HashMap.get ℕ_discrete j made
unfolding initialise_channels
get-channels_other [] next made j h = refl
get-channels_other (x ∷ xs) next made j h =
    get-channels_other xs (next + 1) (HashMap.insert ℕ_discrete x next made) j (λ i. h (inr i))
    ∙ get-insert ℕ_discrete x j next made
    ∙ if_neg (ℕ_discrete x j) (λ e. h (inl e)) _ _

the_same : {x y : ℕ} → some x ≡ some y → x ≡ y
the_same e = cc e

-- The channel of the first server is the next one.
head_channel :
    (x : ℕ) (xs : List ℕ) (next : ℕ) (made : HashMap ℕ ℕ) (j : ℕ)
    → ¬ In x xs
    → x ≡ j
    → HashMap.get ℕ_discrete j (channels (x ∷ xs) next made) ≡ some next
unfolding initialise_channels
head_channel x xs next made j new e =
    get-channels_other xs (next + 1) (HashMap.insert ℕ_discrete x next made) j
      (subst (λ i. ¬ In i xs) e new)
    ∙ get-insert ℕ_discrete x j next made
    ∙ if_pos (ℕ_discrete x j) e _ _

-- Each server has a channel, made at `next` or later.
get-channels :
    (servers : List ℕ) (next : ℕ) (made : HashMap ℕ ℕ) (j : ℕ)
    → Once servers
    → In j servers
    → (c : ℕ) × (HashMap.get ℕ_discrete j (channels servers next made) ≡ some c) × (next ≤ c)
unfolding initialise_channels
get-channels (x ∷ xs) next made j once (inl e) =
    (next, head_channel x xs next made j once.0 e, omega arith)
get-channels (x ∷ xs) next made j once (inr i) =
    let (c, found, later) =
      get-channels xs (next + 1) (HashMap.insert ℕ_discrete x next made) j once.1 i in
    (c, found, omega (arith, later))
get-channels [] next made j once i = absurd i

-- Two servers have different channels.
channels-distinct :
    (servers : List ℕ) (next : ℕ) (made : HashMap ℕ ℕ) (a b c d : ℕ)
    → Once servers
    → In a servers
    → In b servers
    → a ≢ b
    → HashMap.get ℕ_discrete a (channels servers next made) ≡ some c
    → HashMap.get ℕ_discrete b (channels servers next made) ≡ some d
    → c ≢ d
unfolding initialise_channels
channels-distinct (x ∷ xs) next made a b c d once (inl e) (inl f) ne p q = absurd (ne (sym e ∙ f))
channels-distinct (x ∷ xs) next made a b c d once (inl e) (inr j) ne p q =
    let found = head_channel x xs next made a once.0 e in
    let (later, there, above) =
      get-channels xs (next + 1) (HashMap.insert ℕ_discrete x next made) b once.1 j in
    λ same. absurd (omega (arith, above, same, the_same (sym found ∙ p), the_same (sym there ∙ q)))
channels-distinct (x ∷ xs) next made a b c d once (inr i) (inl f) ne p q =
    let found = head_channel x xs next made b once.0 f in
    let (later, there, above) =
      get-channels xs (next + 1) (HashMap.insert ℕ_discrete x next made) a once.1 i in
    λ same. absurd (omega (arith, above, same, the_same (sym found ∙ q), the_same (sym there ∙ p)))
channels-distinct (x ∷ xs) next made a b c d once (inr i) (inr j) ne p q =
    channels-distinct xs (next + 1) (HashMap.insert ℕ_discrete x next made) a b c d once.1 i j ne p
      q
channels-distinct [] next made a b c d once i j ne p q = absurd i

module _ (P : OmniPaxos) where
  -- OmniPaxos can be built for each of the servers.
  abbrev pub Builds : List ℕ → Type 0
  Builds servers = (id : ℕ) → In id servers → (s : P.State) × (P.build 1 servers id 5 ≡ some s)

  abbrev Placed : HashMap ℕ ℕ → ℕ → Option (Node P ℕ × ℕ) → Type 0
  Placed senders id o =
      (n : Node P ℕ) × (c : ℕ) × (o ≡ some (n, c))
      × (HashMap.get ℕ_discrete id senders ≡ some c)
      × (n.node_id ≡ id)
      × (n.connections ≡ HashMap.remove ℕ_discrete id senders)

  abbrev node_at : ℕ → HashMap ℕ ℕ → P.State → Node P ℕ
  node_at id connections s = record {
    node_id = id;
    datastore = Datastore_State.new;
    omni_durability = record { omnipaxos = s; node_id = id };
    last_applied_index = none;
    connections = connections;
    disconnected_connections = [];
    is_running = true;
    current_leader = none;
    received_messages_size = 0;
    got_promoted_leader = false;
  }

  new_node :
      (id : ℕ) (servers : List ℕ) (connections : HashMap ℕ ℕ) (s : P.State)
      → P.build 1 servers id 5 ≡ some s
      → State.new P ℕ id servers connections ≡ ok (node_at id connections s)
  unfolding State.new OmniPaxosDurability.new OmniPaxosDurability.omnipaxos_setup
  new_node id servers connections s built = rw built refl

  -- The loop over the servers: each of them gets a node, and no other entry changes.
  spawn_lem :
      (servers pids : List ℕ) (senders receivers : HashMap ℕ ℕ) (nodes : HashMap ℕ (Node P ℕ × ℕ))
      → Once pids
      → ((id : ℕ) → In id pids → (s : P.State) × (P.build 1 servers id 5 ≡ some s))
      → ((id : ℕ)
          → In id pids
          → (c : ℕ) × (HashMap.get ℕ_discrete id receivers ≡ some c)
            × (HashMap.get ℕ_discrete id senders ≡ some c))
      → (nodes' : HashMap ℕ (Node P ℕ × ℕ)) × (spawn P servers pids senders receivers nodes
          ≡ ok nodes')
        × ((id : ℕ) → In id pids → Placed senders id (HashMap.get ℕ_discrete id nodes'))
        × ((id : ℕ)
            → ¬ In id pids
            → HashMap.get ℕ_discrete id nodes' ≡ HashMap.get ℕ_discrete id nodes)
  unfolding spawn
  spawn_lem servers [] senders receivers nodes once builds made =
      (nodes, refl, λ id i. absurd i, λ id h. refl)
  spawn_lem servers (pid ∷ pids) senders receivers nodes once builds made =
      let (c, receiver, sender) = made pid (inl refl) in
      let (s, built) = builds pid (inl refl) in
      let n = node_at pid (HashMap.remove ℕ_discrete pid senders) s in
      let (nodes', done, placed, kept) =
        spawn_lem servers pids senders (HashMap.remove ℕ_discrete pid receivers)
          (HashMap.insert ℕ_discrete pid (n, c) nodes) once.1 (λ id i. builds id (inr i))
          (λ id i.
            let (d, r, t) = made id (inr i) in
            (
              d,
              get-remove ℕ_discrete pid id receivers
                  ∙ if_neg (ℕ_discrete pid id) (λ e. once.0 (subst (λ x. In x pids) (sym e) i)) _ _
                  ∙ r,
              t,
            )) in
      (
        nodes',
        rw (receiver, new_node pid servers (HashMap.remove ℕ_discrete pid senders) s built) done,
        λ id i. elim i [
          | inl e ↦
              subst (λ x. Placed senders x (HashMap.get ℕ_discrete x nodes')) e
                (
                  n,
                  c,
                  kept pid once.0
                      ∙ get-insert ℕ_discrete pid pid (n, c) nodes
                      ∙ if_pos (ℕ_discrete pid pid) refl _ _,
                  sender,
                  refl,
                  refl,
                )
          | inr later ↦ placed id later
        ],
        λ id h.
            kept id (λ i. h (inr i))
            ∙ get-insert ℕ_discrete pid id (n, c) nodes
            ∙ if_neg (ℕ_discrete pid id) (λ e. h (inl e)) _ _,
      )

  -- Node `a` of a cluster has its own number, and to another node `b` the channel that `b` receives from;
  -- it has none to itself, and no two nodes receive from the same channel.
  abbrev pub Linked : HashMap ℕ (Node P ℕ × ℕ) → ℕ → ℕ → Type 0
  Linked nodes a b =
      (na : Node P ℕ) × (nb : Node P ℕ) × (ca : ℕ) × (cb : ℕ) × (HashMap.get ℕ_discrete a nodes
        ≡ some (na, ca))
      × (HashMap.get ℕ_discrete b nodes ≡ some (nb, cb))
      × (na.node_id ≡ a)
      × (HashMap.get ℕ_discrete b na.connections ≡ ite (ℕ_discrete a b) none (some cb))
      × (a ≢ b → ca ≢ cb)

  -- Starting a cluster of servers that are listed once, for each of which OmniPaxos can be built,
  -- does not panic. The node of each server has the server's number, the channel that another
  -- server's node receives from as its connection to that node, and no connection to itself; no two
  -- nodes receive from the same channel.
  pub spawn_nodes_lem :
      (servers : List ℕ)
      → Once servers
      → Builds servers
      → (nodes : HashMap ℕ (Node P ℕ × ℕ)) × (spawn_nodes P servers ≡ ok nodes)
        × ((a b : ℕ) → In a servers → In b servers → Linked nodes a b)
  unfolding spawn_nodes
  spawn_nodes_lem servers once builds =
      let all = channels servers 0 [] in
      let (nodes, done, placed, kept) = spawn_lem servers servers all all [] once builds (λ id i.
        let (c, found, later) = get-channels servers 0 [] id once i in (c, found, found)) in
      (
        nodes,
        rw (same_channels servers 0 []) done,
        λ a b i j.
            let (na, ca, at_a, sa, id_a, con_a) = placed a i in
            let (nb, cb, at_b, sb, id_b, con_b) = placed b j in
            (
              na,
              nb,
              ca,
              cb,
              at_a,
              at_b,
              id_a,
              ap (HashMap.get ℕ_discrete b) con_a
                  ∙ get-remove ℕ_discrete a b all
                  ∙ ap (ite (ℕ_discrete a b) none) sb,
              λ ne. channels-distinct servers 0 [] a b ca cb once i j ne sa sb,
            ),
      )
