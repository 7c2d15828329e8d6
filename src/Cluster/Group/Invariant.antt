-- ===== src/Cluster/Group/Invariant.antt =====
-- What holds in each state that a group reaches (src/node/mod.rs).
use distributed_omnipaxos_db.Base.{
  ℕ, suc, ◌<◌, ◌≡◌, refl, sym, ◌∙◌, ap, subst, true, false, List, [], ◌∷◌, ◌++◌, arith, length,
  length-append, u64_mod, ite, ℕ_discrete, Option, none, some,
}
use mathlib.Core.Path.{ap₂}
use distributed_omnipaxos_db.Durability.Entry.{DatabaseLogEntry}
use distributed_omnipaxos_db.Durability.OmniPaxos.{OmniPaxos, HasDecided}
use distributed_omnipaxos_db.Datastore.State
use distributed_omnipaxos_db.Datastore.State.{CommittedState}
use distributed_omnipaxos_db.Datastore.State.Views.{IsValid, new-IsValid}
use distributed_omnipaxos_db.Datastore.Session.{Op}
use distributed_omnipaxos_db.Datastore.Replication.{lead, AllTxsFit}
use distributed_omnipaxos_db.Datastore.Table.Runs.{data_of-diffs}
use distributed_omnipaxos_db.Node.State.{Node}
use distributed_omnipaxos_db.Node.Follower.{entries_of}
use distributed_omnipaxos_db.Node.CatchUp.{length-entries_of, Follows}
use distributed_omnipaxos_db.Node.Leader.{leads}
use distributed_omnipaxos_db.Cluster.Group.{Group, HasLearned, entry_for, replaced}
use distributed_omnipaxos_db.Cluster.Group.Prefixes.{
  entry_of, take-append, entries_of-append, lead-IsValid,
}
use distributed_omnipaxos_db.Cluster.Group.Promoted.{Role}
use distributed_omnipaxos_db.Cluster.Group.Applying.{Applied, Progress}

pub HasLearned-grown :
    {P : OmniPaxos} (log : List DatabaseLogEntry) (e : DatabaseLogEntry) (s : P.State)
    → HasLearned P log s
    → HasLearned P (log ++ e ∷ []) s
HasLearned-grown {P = P} log e s l = record {
  known = l.known;
  within = omega (arith, l.within, length-append log (e ∷ []));
  has_decided =
      subst (HasDecided P s) (sym (take-append l.known log (e ∷ []) l.within)) l.has_decided;
}

-- A choice between two values that have a property.
ite-holds :
    {A : Type 0} {X : Type 0} (Q : A → Type 0) (d : Dec X) (a b : A) → Q a → Q b → Q (ite d a b)
ite-holds Q (yes x) a b p q = p
ite-holds Q (no x) a b p q = q

module _ {P : OmniPaxos} {Sender : Type 0} where
  -- A follower, and the entries and transactions of its leader.
  pub record InGroup (txs : List (List Op)) (n : Node P Sender) : Type 0 where
    pub following : leads n ≡ false
    pub learned : HasLearned P (entries_of txs State.new) n.omni_durability.omnipaxos
    pub progress : Progress txs n

  -- The node that leads.
  pub record Heads (txs : List (List Op)) (n : Node P Sender) : Type 0 where
    pub leading : leads n ≡ true
    pub valid : IsValid n.datastore
    pub next : n.datastore.next_tx_offset ≡ length txs
    pub learned : HasLearned P (entries_of txs State.new) n.omni_durability.omnipaxos
    pub role : Role n

  pub record Inv (t : Group P Sender) : Type 0 where
    pub heads : Heads t.txs t.leader
    pub fits : AllTxsFit t.txs
    pub room : suc (length t.txs) < u64_mod
    pub same_log : t.log ≡ entries_of t.txs State.new
    pub in_group : (i : ℕ) (n : Node P Sender) → t.followers i ≡ some n → InGroup t.txs n

  Applied-grown :
      (txs : List (List Op)) (ops : List Op) (a : ℕ) (n : Node P Sender)
      → Applied txs a n
      → Applied (txs ++ ops ∷ []) a n
  Applied-grown txs ops a n w = record {
    within = omega (arith, w.within, length-append txs (ops ∷ []));
    follows =
        subst (λ l. Follows (lead l State.new) a n)
          (sym (take-append (suc a) txs (ops ∷ []) w.within)) w.follows;
    reads = w.reads;
  }

  pub Progress-grown :
      (txs : List (List Op)) (ops : List Op) (n : Node P Sender)
      → Progress txs n
      → Progress (txs ++ ops ∷ []) n
  Progress-grown txs ops n (a, w) = (a, Applied-grown txs ops a n w)

  -- The leader's datastore gives a transaction the entry that it would have without replication.
  next_entry :
      (ops : List Op) (t : Group P Sender)
      → Inv t
      → entry_for ops t.leader ≡ entry_of ops (lead t.txs State.new)
  next_entry ops t inv =
      let l =
        lead-IsValid t.txs State.new new-IsValid (unfold State.new in omega (arith, inv.room)) in
      let zero_next : State.new.next_tx_offset ≡ 0 = unfold State.new in refl in
      ap₂ (λ o d. record { tx_offset = o; tx_data = d })
        (omega (arith, inv.heads.next, l.1, zero_next))
        (data_of-diffs ops t.leader.datastore inv.heads.valid
          ∙ sym (data_of-diffs ops (lead t.txs State.new) l.0))

  pub log_grown :
      (ops : List Op) (t : Group P Sender)
      → Inv t
      → t.log ++ entry_for ops t.leader ∷ [] ≡ entries_of (t.txs ++ ops ∷ []) State.new
  log_grown ops t inv =
      ap₂ (λ l e. l ++ e ∷ []) inv.same_log (next_entry ops t inv)
      ∙ sym (entries_of-append t.txs ops State.new)

  pub length-log : (t : Group P Sender) → Inv t → length t.log ≡ length t.txs
  length-log t inv = ap length inv.same_log ∙ length-entries_of t.txs State.new

  -- A property of all followers, after one of them has changed or has gone.
  abbrev Each : (Node P Sender → Type 0) → (ℕ → Option (Node P Sender)) → Type 0
  Each Q nodes = (i : ℕ) (n : Node P Sender) → nodes i ≡ some n → Q n

  pub replaced-some :
      (Q : Node P Sender → Type 0) (nodes : ℕ → Option (Node P Sender)) (i : ℕ) (n : Node P Sender)
      → Each Q nodes
      → Q n
      → Each Q (replaced i (some n) nodes)
  replaced-some Q nodes i n h q j =
      ite-holds (λ o. (m : Node P Sender) → o ≡ some m → Q m) (ℕ_discrete j i) (some n) (nodes j)
        (λ m e. subst Q (cc e) q) (h j)

  pub replaced-none :
      (Q : Node P Sender → Type 0) (nodes : ℕ → Option (Node P Sender)) (i : ℕ)
      → Each Q nodes
      → Each Q (replaced i none nodes)
  replaced-none Q nodes i h j =
      ite-holds (λ o. (m : Node P Sender) → o ≡ some m → Q m) (ℕ_discrete j i) none (nodes j)
        (λ m e. absurd (cc e)) (h j)
