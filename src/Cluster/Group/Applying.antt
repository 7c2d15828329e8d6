-- ===== src/Cluster/Group/Applying.antt =====
-- What a follower of a group has applied and knows to be decided (src/node/mod.rs).
use distributed_omnipaxos_db.Base.{
  ℕ, suc, ◌≤◌, ◌<◌, ◌≡◌, ◌∙◌, ap, some, List, arith, length, take, dec_lt,
}
use distributed_omnipaxos_db.Durability.Entry.{DatabaseLogEntry}
use distributed_omnipaxos_db.Durability.OmniPaxos.{OmniPaxos, decided, HasDecided}
use distributed_omnipaxos_db.Durability.OmniPaxosDurability
use distributed_omnipaxos_db.Durability.OmniPaxosDurability.{decided_offset}
use distributed_omnipaxos_db.Durability.OmniPaxosDurability.Iteration.{drop-get_elem?}
use distributed_omnipaxos_db.Datastore.State
use distributed_omnipaxos_db.Datastore.State.{CommittedState}
use distributed_omnipaxos_db.Datastore.Session.{Op}
use distributed_omnipaxos_db.Datastore.Replication.{lead}
use distributed_omnipaxos_db.Node.State.{Node}
use distributed_omnipaxos_db.Node.Apply.{apply_replicated_txns}
use distributed_omnipaxos_db.Node.CatchUp.{Follows}
use distributed_omnipaxos_db.Node.Frame.{apply_replicated_txns-SameFrame}

pub reads_below :
    {P : OmniPaxos} (s : P.State) (log : List DatabaseLogEntry) (i : ℕ)
    → HasDecided P s log
    → i < length log
    → (e : DatabaseLogEntry) × (P.read s i ≡ some (decided e))
reads_below s log i h lt = let (e, found, _) = drop-get_elem? log i lt in (e, h.below i e found)

module _ {P : OmniPaxos} {Sender : Type 0} where
  -- The node knows that the entries up to `a` are decided.
  abbrev pub Knows : Node P Sender → ℕ → Type 0
  Knows n a =
      (i : ℕ)
      → i ≤ a
      → (e : DatabaseLogEntry) × (P.read n.omni_durability.omnipaxos i ≡ some (decided e))

  -- The entries up to `a` are applied.
  pub record Applied (txs : List (List Op)) (a : ℕ) (n : Node P Sender) : Type 0 where
    pub within : a < length txs
    pub follows : Follows (lead (take (suc a) txs) State.new) a n
    pub reads : Knows n a

  abbrev pub Progress : List (List Op) → Node P Sender → Type 0
  Progress txs n = (a : ℕ) × Applied txs a n

  -- Where the number of decided entries is known, it is more than `a`.
  pub behind_decided :
      (n : Node P Sender) (log : List DatabaseLogEntry) (a : ℕ)
      → Knows n a
      → HasDecided P n.omni_durability.omnipaxos log
      → a < length log
  behind_decided n log a w h = elim (dec_lt a (length log)) [
    | yes lt ↦ lt
    | no ge ↦ let (e, r) = w (length log) (omega (arith, ge)) in absurd (h.above e r)
  ]

  pub same_reads :
      (n : Node P Sender) (i : ℕ)
      → (e : DatabaseLogEntry) × (P.read n.omni_durability.omnipaxos i ≡ some (decided e))
      → (e : DatabaseLogEntry) × (P.read (apply_replicated_txns n).1.omni_durability.omnipaxos i
          ≡ some (decided e))
  same_reads n i (e, r) = (
    e,
    ap (λ (d : OmniPaxosDurability.OmniPaxosDurability P). P.read d.omnipaxos i)
          (apply_replicated_txns-SameFrame n).omni_durability
        ∙ r,
  )
