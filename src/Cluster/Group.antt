-- ===== src/Cluster/Group.antt =====
-- A leader and its followers (src/node/mod.rs over src/durability/omnipaxos_durability.rs and
-- src/datastore/example_datastore.rs): the leader runs transactions, OmniPaxos spreads its log, each
-- replica polls, and a follower takes over from the leader, in any order of these steps.
pub mod Prefixes
pub mod Leading
pub mod Applying
pub mod Polling
pub mod Promoted
pub mod Invariant
pub mod Kept
pub mod Steps
pub mod Reached
pub mod Deposed
pub mod Agreement
use distributed_omnipaxos_db.Base.{
  ℕ, suc, ◌<◌, ◌≤◌, ◌≡◌, ◌≢◌, Bool, true, false, Option, none, some, List, [], ◌∷◌, ◌++◌, ite,
  ℕ_discrete, Outcome, ok, err, panic, length, take, u64_mod,
}
use distributed_omnipaxos_db.TxData.{TxResult}
use distributed_omnipaxos_db.Durability.Entry.{DatabaseLogEntry}
use distributed_omnipaxos_db.Durability.OmniPaxos.{OmniPaxos, decided, HasDecided}
use distributed_omnipaxos_db.Durability.OmniPaxosDurability
use distributed_omnipaxos_db.Datastore.State
use distributed_omnipaxos_db.Datastore.State.{DatastoreError}
use distributed_omnipaxos_db.Datastore.Session.{Op, AllFit, perform}
use distributed_omnipaxos_db.Datastore.Tx.{MutTx}
use distributed_omnipaxos_db.Node.State.{Node}
use distributed_omnipaxos_db.Node.Apply.{apply_replicated_txns}
use distributed_omnipaxos_db.Node.Methods.{begin_mut_tx, commit_mut_tx, update_leader}
use distributed_omnipaxos_db.Node.Leader.{leads}
use distributed_omnipaxos_db.Datastore.State.Views.{IsValid}
use distributed_omnipaxos_db.Datastore.Replication.{AllTxsFit}
use distributed_omnipaxos_db.Node.Follower.{entries_of}
use distributed_omnipaxos_db.Cluster.Group.Applying.{Progress}
use distributed_omnipaxos_db.Cluster.Group.Prefixes.{entry_of}

-- The nodes with another one in the place of number `i`, or with none there.
abbrev pub replaced {ℓ} : {A : Type ℓ} → ℕ → Option A → (ℕ → Option A) → ℕ → Option A
replaced i node nodes j = ite (ℕ_discrete j i) node (nodes j)

-- A node's OmniPaxos tells of a decided beginning of the log that the leader appended.
pub record HasLearned (P : OmniPaxos) (log : List DatabaseLogEntry) (s : P.State) : Type 0 where
  pub known : ℕ
  pub within : known ≤ length log
  pub has_decided : HasDecided P s (take known log)

-- What was decided stays decided.
abbrev pub KeepsDecided : (P : OmniPaxos) → P.State → P.State → Type 0
KeepsDecided P old s =
    (i : ℕ) (e : DatabaseLogEntry) → P.read old i ≡ some (decided e) → P.read s i ≡ some (decided e)

module _ {P : OmniPaxos} {Sender : Type 0} where
  -- A client's transaction on a node.
  abbrev pub run_on :
      List Op
      → Outcome DatastoreError MutTx
      → Node P Sender
      → Outcome DatastoreError TxResult × Node P Sender
  run_on ops (ok tx) n = commit_mut_tx (perform ops tx) n
  run_on ops (err e) n = (err e, n)
  run_on ops panic n = (panic, n)

  abbrev pub run_tx : List Op → Node P Sender → Outcome DatastoreError TxResult × Node P Sender
  run_tx ops n = run_on ops (begin_mut_tx n) n

  abbrev pub entry_for : List Op → Node P Sender → DatabaseLogEntry
  entry_for ops n = entry_of ops n.datastore

  -- The node's OmniPaxos moves to another state.
  abbrev pub with_state : P.State → Node P Sender → Node P Sender
  with_state s n = record n { omni_durability = record n.omni_durability { omnipaxos = s } }

-- The leader with the entries of its log and the transactions that these came from, oldest first, and the
-- followers by number.
pub record Group (P : OmniPaxos) (Sender : Type 0) : Type 0 where
  pub leader : Node P Sender
  pub followers : ℕ → Option (Node P Sender)
  pub log : List DatabaseLogEntry
  pub txs : List (List Op)

module _ {P : OmniPaxos} {Sender : Type 0} where
  abbrev pub committed : List Op → Group P Sender → Group P Sender
  committed ops t = record t {
    leader = (run_tx ops t.leader).1;
    log = t.log ++ entry_for ops t.leader ∷ [];
    txs = t.txs ++ ops ∷ [];
  }

  abbrev pub taught : ℕ → P.State → Node P Sender → Group P Sender → Group P Sender
  taught i s n t = record t { followers = replaced i (some (with_state s n)) t.followers }

  abbrev pub polled_at : ℕ → Node P Sender → Group P Sender → Group P Sender
  polled_at i n t = record t {
    followers = replaced i (some (apply_replicated_txns n).1) t.followers;
  }

  -- Of the log the first `k` entries are left.
  abbrev pub taken_over : ℕ → ℕ → P.State → Node P Sender → Group P Sender → Group P Sender
  taken_over i k s n t = record {
    leader = (update_leader (with_state s n)).1;
    followers = replaced i none t.followers;
    log = take k t.log;
    txs = take k t.txs;
  }

  abbrev pub omni : Node P Sender → P.State
  omni n = n.omni_durability.omnipaxos

  pub data Step (t : Group P Sender) : Group P Sender → Type 0 where
    -- The leader runs a transaction, whose entry OmniPaxos takes.
    commits :
        (ops : List Op) (s : P.State)
        → AllFit ops
        → suc (suc (length t.log)) < u64_mod
        → P.append (omni t.leader) (entry_for ops t.leader) ≡ some s
        → leads (with_state s t.leader) ≡ true
        → KeepsDecided P (omni t.leader) s
        → HasLearned P t.log s
        → Step t (committed ops t)
    -- Messages reach the leader's OmniPaxos.
    leader_learns :
        (s : P.State)
        → leads (with_state s t.leader) ≡ true
        → KeepsDecided P (omni t.leader) s
        → HasLearned P t.log s
        → Step t (record t { leader = with_state s t.leader })
    leader_polls : Step t (record t { leader = (apply_replicated_txns t.leader).1 })
    -- Messages reach a follower's OmniPaxos.
    learns :
        (i : ℕ) (n : Node P Sender) (s : P.State)
        → t.followers i ≡ some n
        → leads (with_state s n) ≡ false
        → KeepsDecided P (omni n) s
        → HasLearned P t.log s
        → Step t (taught i s n t)
    polls : (i : ℕ) (n : Node P Sender) → t.followers i ≡ some n → Step t (polled_at i n t)
    -- The old leader is gone, and a follower finds itself leading. The log that its OmniPaxos holds is
    -- decided to the end, and no other node knows of more.
    takes_over :
        (i k : ℕ) (n : Node P Sender) (s : P.State) (old : ℕ)
        → t.followers i ≡ some n
        → n.current_leader ≡ some old
        → old ≢ n.node_id
        → OmniPaxosDurability.get_current_leader P (with_state s n).omni_durability ≡ some n.node_id
        → leads (with_state s n) ≡ true
        → KeepsDecided P (omni n) s
        → k ≤ length t.log
        → HasDecided P s (take k t.log)
        → P.read s k ≡ none
        → ((j : ℕ) (m : Node P Sender)
            → t.followers j ≡ some m
            → HasLearned P (take k t.log) (omni m))
        → Step t (taken_over i k s n t)

  -- A follower that mirrors the leader as of one of its entries.
  pub record IsFollowing (t : Group P Sender) (n : Node P Sender) : Type 0 where
    pub following : leads n ≡ false
    pub learned : HasLearned P t.log (omni n)
    pub progress : Progress t.txs n

  -- A leader that was not promoted by a change of leader holds a log of its transactions, and each
  -- follower mirrors it as of an entry of that log. A new node is no such follower: Node.Fresh.
  pub record IsStart (t : Group P Sender) : Type 0 where
    pub leading : leads t.leader ≡ true
    pub unpromoted : t.leader.got_promoted_leader ≡ false
    pub valid : IsValid t.leader.datastore
    pub next : t.leader.datastore.next_tx_offset ≡ length t.txs
    pub leader_learned : HasLearned P t.log (omni t.leader)
    pub same_log : t.log ≡ entries_of t.txs State.new
    pub fits : AllTxsFit t.txs
    pub room : suc (length t.txs) < u64_mod
    pub followers_start : (i : ℕ) (n : Node P Sender) → t.followers i ≡ some n → IsFollowing t n

  pub data Reach : Group P Sender → Type 0 where
    start : {t : Group P Sender} → IsStart t → Reach t
    later : {t u : Group P Sender} → Reach t → Step t u → Reach u
