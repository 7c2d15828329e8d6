-- ===== src/Durability/OmniPaxosDurability.antt =====
-- src/durability/omnipaxos_durability.rs: the durability layer over a node of OmniPaxos.
pub mod Iteration
use distributed_omnipaxos_db.Base.{
  ℕ, zero, suc, ◌+◌, ◌-◌, Bool, true, false, Option, none, some, List, [], ◌∷◌, ltb, ◌==◌,
  if◌then◌else◌, Outcome, ok, err, panic, ◌>>=◌, add_u64,
}
use distributed_omnipaxos_db.TxData.{TxOffset, TxData}
use distributed_omnipaxos_db.Durability.Entry.{DatabaseLogEntry}
use distributed_omnipaxos_db.Durability.OmniPaxos.{ReadEntry, decided, undecided, OmniPaxos}

pub record OmniPaxosDurability (P : OmniPaxos) : Type 0 where
  pub omnipaxos : P.State
  pub node_id : ℕ

abbrev pub unwrap {ℓ} : {A : Type ℓ} → Option A → Outcome ⊥ A
unwrap none = panic
unwrap (some a) = ok a

-- `LogEntry::Decided(item) => Some((item.tx_offset, item.tx_data))`, `_ => None`
abbrev pub decided_pair : ReadEntry → Option (TxOffset × TxData)
decided_pair (decided e) = some (e.tx_offset, e.tx_data)
decided_pair undecided = none

abbrev pub cons_some {ℓ} : {A : Type ℓ} → Option A → List A → List A
cons_some none xs = xs
cons_some (some a) xs = a ∷ xs

unfoldable pub decided_pairs : List ReadEntry → List (TxOffset × TxData)
decided_pairs [] = []
decided_pairs (e ∷ es) = cons_some (decided_pair e) (decided_pairs es)

abbrev pub decided_offset : Option ReadEntry → Option TxOffset
decided_offset (some (decided e)) = some e.tx_offset
decided_offset (some undecided) = none
decided_offset none = none

abbrev pub is_some_of : Option ℕ → ℕ → Bool
is_some_of none n = false
is_some_of (some m) n = m == n

module _ (P : OmniPaxos) where
  unfoldable pub omnipaxos_setup : ℕ → List ℕ → Outcome ⊥ P.State
  omnipaxos_setup node_id node_array = unwrap (P.build 1 node_array node_id 5)

  unfoldable pub new : ℕ → List ℕ → Outcome ⊥ (OmniPaxosDurability P)
  unfolding omnipaxos_setup
  new node_id node_array = do
    s ← omnipaxos_setup node_id node_array
    ok (record { omnipaxos = s; node_id = node_id })

  unfoldable pub tick : OmniPaxosDurability P → OmniPaxosDurability P
  tick d = record d { omnipaxos = P.tick d.omnipaxos }

  unfoldable pub handle_incoming : OmniPaxosDurability P → P.Message → OmniPaxosDurability P
  handle_incoming d msg = record d { omnipaxos = P.handle_incoming d.omnipaxos msg }

  unfoldable pub get_current_leader : OmniPaxosDurability P → Option ℕ
  get_current_leader d = P.get_current_leader d.omnipaxos

  unfoldable pub is_leader : OmniPaxosDurability P → Bool
  is_leader d = is_some_of (P.get_current_leader d.omnipaxos) d.node_id

  unfoldable pub read_decided_at_position :
      OmniPaxosDurability P → ℕ → Outcome ⊥ (Option (TxOffset × TxData))
  read_decided_at_position d pos = do
    log_entry ← unwrap (P.read d.omnipaxos pos)
    ok (decided_pair log_entry)

  -- The decided index, less one where it is positive.
  unfoldable pub last_idx : OmniPaxosDurability P → ℕ
  last_idx d =
      let offset = P.get_decided_idx d.omnipaxos in if ltb 0 offset then offset - 1 else offset

  unfoldable pub get_durable_tx_offset_optional : OmniPaxosDurability P → Option TxOffset
  unfolding last_idx
  get_durable_tx_offset_optional d = decided_offset (P.read d.omnipaxos (last_idx d))

  -- The entry is read, and its offset is dropped: the result is the position in the log.
  unfoldable pub get_durable_tx_offset : OmniPaxosDurability P → TxOffset
  unfolding last_idx
  get_durable_tx_offset d = last_idx d

  -- The entries that can be read among `n` positions from `i` on.
  unfoldable pub read_range : P.State → ℕ → ℕ → List ReadEntry
  read_range s i zero = []
  read_range s i (suc n) = cons_some (P.read s i) (read_range s (suc i) n)

  unfoldable pub iter_starting_from_offset :
      OmniPaxosDurability P → TxOffset → Outcome ⊥ (List (TxOffset × TxData))
  unfolding read_range decided_pairs
  iter_starting_from_offset d offset =
      let decided_idx = P.get_decided_idx d.omnipaxos in
      if decided_idx == 0
      then (do entry ← unwrap (P.read d.omnipaxos offset); ok (decided_pairs (entry ∷ [])))
      else (do
        first ← add_u64 offset 1
        end ← add_u64 decided_idx 1
        ok (decided_pairs (read_range d.omnipaxos first (end - first))))

  unfoldable pub iter : OmniPaxosDurability P → Outcome ⊥ (List (TxOffset × TxData))
  unfolding iter_starting_from_offset
  iter d = iter_starting_from_offset d 0

  -- `expect("append failed")`
  unfoldable pub append_tx :
      OmniPaxosDurability P → TxOffset → TxData → Outcome ⊥ (OmniPaxosDurability P)
  append_tx d tx_offset tx_data = do
    s ← unwrap (P.append d.omnipaxos (record { tx_offset = tx_offset; tx_data = tx_data }))
    ok (record d { omnipaxos = s })
