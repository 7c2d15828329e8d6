-- ===== src/Durability/OmniPaxosDurability/Iteration.antt =====
-- Which entries of the decided log the layer gives out (src/durability/omnipaxos_durability.rs).
use distributed_omnipaxos_db.Base.{
  ℕ, zero, suc, ◌+◌, ◌-◌, ◌<◌, ◌≡◌, refl, ◌∙◌, ap, Option, none, some, List, [], ◌∷◌, map, arith,
  ok, length, get_elem?, drop, add_u64_fits, u64_mod, ◌==◌, false,
}
use distributed_omnipaxos_db.TxData.{TxOffset, TxData}
use distributed_omnipaxos_db.Durability.Entry.{DatabaseLogEntry}
use distributed_omnipaxos_db.Durability.OmniPaxos.{
  ReadEntry, decided, undecided, OmniPaxos, HasDecided,
}
use distributed_omnipaxos_db.Durability.OmniPaxosDurability.{
  OmniPaxosDurability, cons_some, decided_pairs, read_range, iter_starting_from_offset,
  get_durable_tx_offset_optional, get_durable_tx_offset, last_idx, decided_offset,
}

abbrev pub pair_of : DatabaseLogEntry → TxOffset × TxData
pair_of e = (e.tx_offset, e.tx_data)

pub drop-get_elem? :
    {A : Type 0} (xs : List A) (i : ℕ)
    → i < length xs
    → (x : A) × (get_elem? xs i ≡ some x) × (drop i xs ≡ x ∷ drop (suc i) xs)
drop-get_elem? [] i h = absurd (omega arith)
drop-get_elem? (x ∷ xs) zero h = (x, refl, refl)
drop-get_elem? (x ∷ xs) (suc i) h = let (y, e, f) = drop-get_elem? xs i (omega arith) in (y, e, f)

drop-all : {A : Type 0} (xs : List A) → drop (length xs) xs ≡ []
drop-all [] = refl
drop-all (x ∷ xs) = drop-all xs

module _ (P : OmniPaxos) (s : P.State) (log : List DatabaseLogEntry) (h : HasDecided P s log) where
  read-none :
      (o : Option ReadEntry) → P.read s (length log) ≡ o → decided_pairs (cons_some o []) ≡ []
  unfolding decided_pairs
  read-none none e = refl
  read-none (some (decided x)) e = absurd (h.above x e)
  read-none (some undecided) e = refl

  -- The last position of the range is the decided index itself.
  pairs-read_range :
      (n i : ℕ)
      → n + i ≡ length log
      → decided_pairs (read_range P s i (suc n)) ≡ map pair_of (drop i log)
  unfolding read_range decided_pairs
  pairs-read_range zero i e =
      let e' : i ≡ length log = omega (arith, e) in
      rw (e', drop-all log) (read-none (P.read s (length log)) refl)
  pairs-read_range (suc n) i e =
      let (x, found, split) = drop-get_elem? log i (omega (arith, e)) in
      rw (h.below i x found, split)
        (ap (◌∷◌ (pair_of x)) (pairs-read_range n (suc i) (omega (arith, e))))

nonzero : (n : ℕ) → 0 < n → (n == 0) ≡ false
nonzero n h = ground arith

module _ (P : OmniPaxos) (d : OmniPaxosDurability P) (log : List DatabaseLogEntry) where
  -- From an offset below the decided index on, where the index is below 2 ^ 64 - 1, the layer gives
  -- out the offset and data of the decided entries behind that position, in order, and does not
  -- panic. The entry at the position itself is not among them.
  pub iter_starting_from_offset_lem :
      (offset : ℕ)
      → HasDecided P d.omnipaxos log
      → offset < length log
      → length log + 1 < u64_mod
      → iter_starting_from_offset P d offset ≡ ok (map pair_of (drop (offset + 1) log))
  unfolding iter_starting_from_offset
  iter_starting_from_offset_lem offset h lt room =
      let count : length log + 1 - (offset + 1) ≡ suc (length log - (offset + 1)) = omega arith in
      rw
        (
          h.index,
          nonzero (length log) (omega arith),
          add_u64_fits {E = ⊥} offset 1 (omega arith),
          add_u64_fits {E = ⊥} (length log) 1 room,
          count,
        )
        (ap ok (
          pairs-read_range P d.omnipaxos log h (length log - (offset + 1)) (offset + 1)
            (omega arith)))

  -- With a last decided entry, the optional durable offset is the offset which that entry carries,
  -- and the plain one is its position in the log.
  pub durable_offset_lem :
      (e : DatabaseLogEntry)
      → HasDecided P d.omnipaxos log
      → get_elem? log (length log - 1) ≡ some e
      → (get_durable_tx_offset_optional P d ≡ some e.tx_offset)
        × (get_durable_tx_offset P d ≡ length log - 1)
  unfolding get_durable_tx_offset_optional get_durable_tx_offset
  durable_offset_lem e h at_end =
      let idx : last_idx P d ≡ length log - 1 = unfold last_idx in rw h.index (ground arith) in
      (
        ap (λ i. decided_offset (P.read d.omnipaxos i)) idx
            ∙ ap decided_offset (h.below (length log - 1) e at_end),
        idx,
      )
