-- ===== src/Node/Running.antt =====
-- A run of the loop of a node over a sequence of events (`NodeRunner::run` of src/node/mod.rs).
use distributed_omnipaxos_db.Base.{
  ℕ, ◌+◌, ◌≡◌, refl, ◌∙◌, subst, Bool, true, false, Option, none, some, List, [], ◌∷◌, arith, All,
  All-append, Outcome, ok, err, panic, add_u64, if◌then◌else◌, ℕ_discrete,
}
use distributed_omnipaxos_db.Base.HashMap
use distributed_omnipaxos_db.Base.HashMap.{HashMap}
use distributed_omnipaxos_db.Durability.OmniPaxos.{OmniPaxos}
use distributed_omnipaxos_db.Node.State.{Node, and_then}
use distributed_omnipaxos_db.Node.Apply.{apply_replicated_txns}
use distributed_omnipaxos_db.Node.Methods.{update_leader}
use distributed_omnipaxos_db.Node.Frame.{
  SameFrame, and_then-SameFrame, update_leader-SameFrame, apply_replicated_txns-SameFrame,
}
use distributed_omnipaxos_db.Node.Runner.{
  Event, ticks, handles, receives, send_all, send_outgoing_msgs, sends, handle_messages, counted,
  receive, step, append_sent, and_more, run,
}

add_u64-ok : (a b c : ℕ) → add_u64 {E = ⊥} a b ≡ ok c → c ≡ a + b
add_u64-ok a b c e = ground arith

module _ {Message : Type 0} (json_length : Message → ℕ) where
  -- The bytes of the messages that events receive.
  abbrev pub bytes_in : Event Message → ℕ
  bytes_in ticks = 0
  bytes_in handles = 0
  bytes_in (receives msg) = json_length msg

  abbrev pub bytes_of : List (Event Message) → ℕ
  bytes_of [] = 0
  bytes_of (event ∷ events) = bytes_in event + bytes_of events

module _ (P : OmniPaxos) {Sender : Type 0} where
  -- A message that is sent on the channel which the connections have for its receiver.
  abbrev pub Connected : HashMap ℕ Sender → Sender × P.Message → Type 0
  Connected connections sent =
      HashMap.get ℕ_discrete (P.get_receiver sent.1) connections ≡ some sent.0

  delivered-Connected :
      (connections : HashMap ℕ Sender) (msg : P.Message) (rest : List (Sender × P.Message))
      (o : Option Sender)
      → HashMap.get ℕ_discrete (P.get_receiver msg) connections ≡ o
      → All (Connected connections) rest
      → All (Connected connections) (elim o [ none ↦ rest | some channel ↦ (channel, msg) ∷ rest ])
  delivered-Connected connections msg rest none e h = h
  delivered-Connected connections msg rest (some channel) e h = (e, h)

  send_all-Connected :
      (connections : HashMap ℕ Sender) (msgs : List P.Message)
      → All (Connected connections) (send_all P connections msgs)
  unfolding send_all
  send_all-Connected connections [] = tt
  send_all-Connected connections (msg ∷ msgs) =
      delivered-Connected connections msg (send_all P connections msgs) _ refl
        (send_all-Connected connections msgs)

  -- What a call gives a node: its connections stay, it keeps running, `bytes` are counted, and what it
  -- sends goes to connected nodes.
  abbrev Serves : Node P Sender → ℕ → Outcome ⊥ (List (Sender × P.Message)) × Node P Sender → Type 0
  Serves n bytes (ok sent, n') =
      (n'.connections ≡ n.connections)
      × (n'.is_running ≡ n.is_running)
      × (n'.received_messages_size ≡ n.received_messages_size + bytes)
      × All (Connected n.connections) sent
  Serves n bytes (err e, n') = Unit
  Serves n bytes (panic, n') = Unit

  sends-Serves :
      (n : Node P Sender) (p : Outcome ⊥ (Unit {0}) × Node P Sender)
      → SameFrame n p.1
      → Serves n 0 (sends P p)
  unfolding send_outgoing_msgs
  sends-Serves n (ok u, m) f = (
    f.connections,
    f.is_running,
    omega (arith, f.received_messages_size),
    subst
        (λ c.
          All (Connected c)
            (send_all P m.connections (P.outgoing_messages m.omni_durability.omnipaxos).0))
        f.connections
        (send_all-Connected m.connections (P.outgoing_messages m.omni_durability.omnipaxos).0),
  )
  sends-Serves n (err e, m) f = tt
  sends-Serves n (panic, m) f = tt

  counted-Serves :
      (o : Outcome ⊥ ℕ) (msg : P.Message) (n : Node P Sender) (bytes : ℕ)
      → ((size : ℕ) → o ≡ ok size → size ≡ n.received_messages_size + bytes)
      → Serves n bytes (counted P o msg n)
  counted-Serves (ok size) msg n bytes h = (refl, refl, h size refl, tt)
  counted-Serves (err e) msg n bytes h = tt
  counted-Serves panic msg n bytes h = tt

  step-Serves :
      (json_length : P.Message → ℕ) (event : Event P.Message) (n : Node P Sender)
      → Serves n (bytes_in json_length event) (step P json_length event n)
  unfolding step handle_messages receive
  step-Serves json_length ticks n = (refl, refl, omega arith, tt)
  step-Serves json_length handles n =
      sends-Serves n (and_then (update_leader n) apply_replicated_txns) (
        and_then-SameFrame n (update_leader n) apply_replicated_txns (update_leader-SameFrame n)
          apply_replicated_txns-SameFrame)
  step-Serves json_length (receives msg) n =
      counted-Serves _ msg n (json_length msg) (λ size e. add_u64-ok _ _ size e)

  and_more-Serves :
      (n : Node P Sender) (a b : ℕ) (p : Outcome ⊥ (List (Sender × P.Message)) × Node P Sender)
      (next : Node P Sender → Outcome ⊥ (List (Sender × P.Message)) × Node P Sender)
      → n.is_running ≡ true
      → Serves n a p
      → ((m : Node P Sender) → m.is_running ≡ true → Serves m b (next m))
      → Serves n (a + b) (and_more P p next)
  and_more-Serves n a b (ok sent, m) next running s h = joined (next m) (h m (s.1 ∙ running))
    where
      joined :
          (q : Outcome ⊥ (List (Sender × P.Message)) × Node P Sender)
          → Serves m b q
          → Serves n (a + b) (append_sent P sent q)
      joined (ok more, k) t = (
        t.0 ∙ s.0,
        t.1 ∙ s.1,
        omega (arith, s.2, t.2),
        All-append (Connected n.connections) sent more s.3
            (subst (λ c. All (Connected c) more) s.0 t.3),
      )
      joined (err e, k) t = tt
      joined (panic, k) t = tt
  and_more-Serves n a b (err e, m) next running s h = tt
  and_more-Serves n a b (panic, m) next running s h = tt

  while_running-Serves :
      (n : Node P Sender) (k : ℕ) (p : Outcome ⊥ (List (Sender × P.Message)) × Node P Sender)
      (b : Bool)
      → b ≡ true
      → Serves n k p
      → Serves n k (if b then p else (ok [], n))
  while_running-Serves n k p true e s = s
  while_running-Serves n k p false e s = absurd (cc e)

  run-Serves :
      (json_length : P.Message → ℕ) (events : List (Event P.Message)) (n : Node P Sender)
      → n.is_running ≡ true
      → Serves n (bytes_of json_length events) (run P json_length events n)
  unfolding run
  run-Serves json_length [] n running = (refl, refl, omega arith, tt)
  run-Serves json_length (event ∷ events) n running =
      while_running-Serves n _ (and_more P (step P json_length event n) (run P json_length events))
        n.is_running running
        (and_more-Serves n (bytes_in json_length event) (bytes_of json_length events)
          (step P json_length event n) (run P json_length events) running
          (step-Serves json_length event n) (λ m r. run-Serves json_length events m r))

  -- The loop of a running node over any events, where it does not panic, sends messages only to
  -- connected nodes, each on the channel of its receiver, counts exactly the bytes of the received
  -- messages, and leaves the node running with its connections.
  pub run_lem :
      (json_length : P.Message → ℕ) (events : List (Event P.Message)) (n : Node P Sender)
      (sent : List (Sender × P.Message))
      → n.is_running ≡ true
      → (run P json_length events n).0 ≡ ok sent
      → let n' = (run P json_length events n).1 in
        (n'.connections ≡ n.connections)
        × (n'.is_running ≡ n.is_running)
        × (n'.received_messages_size ≡ n.received_messages_size + bytes_of json_length events)
        × All (Connected n.connections) sent
  run_lem json_length events n sent running e =
      subst (λ o. Serves n (bytes_of json_length events) (o, (run P json_length events n).1)) e
        (run-Serves json_length events n running)
