-- ===== src/Cluster/Silence.antt =====
-- A node whose connection is cut (src/utils.rs) and the loop that it runs (src/node/mod.rs).
use distributed_omnipaxos_db.Base.{
  ℕ, ◌≡◌, ◌≢◌, sym, if_pos, true, none, List, All, All-map, ok, ℕ_discrete,
}
use distributed_omnipaxos_db.Base.HashMap
use distributed_omnipaxos_db.Base.HashMap.{HashMap, get-remove}
use distributed_omnipaxos_db.Durability.OmniPaxos.{OmniPaxos}
use distributed_omnipaxos_db.Node.State.{Node}
use distributed_omnipaxos_db.Node.Runner.{Event, run}
use distributed_omnipaxos_db.Node.Running.{Connected, run_lem}
use distributed_omnipaxos_db.Cluster.Connections.{cut_off}

module _ (P : OmniPaxos) {Sender : Type 0} where
  not_to :
      (other : ℕ) (connections : HashMap ℕ Sender) (sent : Sender × P.Message)
      → Connected P (HashMap.remove ℕ_discrete other connections) sent
      → P.get_receiver sent.1 ≢ other
  not_to other connections sent c e = absurd (
      cc (
        c,
        get-remove ℕ_discrete other (P.get_receiver sent.1) connections,
        if_pos (ℕ_discrete other (P.get_receiver sent.1)) (sym e) none
            (HashMap.get ℕ_discrete (P.get_receiver sent.1) connections),
      ))

  -- A running node that is cut off from another sends it nothing, whatever events its loop takes,
  -- where it does not panic.
  pub cut_off-run :
      (json_length : P.Message → ℕ) (events : List (Event P.Message)) (n : Node P Sender)
      (other : ℕ) (sent : List (Sender × P.Message))
      → n.is_running ≡ true
      → (run P json_length events (cut_off other n)).0 ≡ ok sent
      → All (λ s. P.get_receiver s.1 ≢ other) sent
  cut_off-run json_length events n other sent running e =
      All-map (Connected P (HashMap.remove ℕ_discrete other n.connections)) _ sent
        (λ s c. not_to other n.connections s c)
        (run_lem P json_length events (cut_off other n) sent running e).3
