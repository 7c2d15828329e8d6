-- ===== src/Cluster/Group/Prefixes.antt =====
-- Beginnings of the log of a leader, and of the transactions that it ran (src/node/mod.rs).
use distributed_omnipaxos_db.Base.{
  ℕ, zero, suc, ◌+◌, ◌≤◌, ◌<◌, ◌≡◌, refl, sym, ◌∙◌, ap, some, List, [], ◌∷◌, ◌++◌, arith, length,
  get_elem?, take, drop, u64_mod, All,
}
use distributed_omnipaxos_db.Durability.Entry.{DatabaseLogEntry}
use distributed_omnipaxos_db.Datastore.State
use distributed_omnipaxos_db.Datastore.State.{CommittedState}
use distributed_omnipaxos_db.Datastore.State.Views.{IsValid, new-IsValid}
use distributed_omnipaxos_db.Datastore.Session.{Op, session}
use distributed_omnipaxos_db.Datastore.Replication.{data_of, lead}
use distributed_omnipaxos_db.Datastore.Table.Runs.{session_table}
use distributed_omnipaxos_db.Node.Follower.{entries_of}
use distributed_omnipaxos_db.Node.CatchUp.{IsNumbered}

module _ {ℓ} {A : Type ℓ} where
  pub length-take : (n : ℕ) (xs : List A) → n ≤ length xs → length (take n xs) ≡ n
  length-take zero xs h = refl
  length-take (suc n) [] h = absurd (omega arith)
  length-take (suc n) (x ∷ xs) h = ap suc (length-take n xs (omega arith))

  pub take-append : (n : ℕ) (xs ys : List A) → n ≤ length xs → take n (xs ++ ys) ≡ take n xs
  take-append zero xs ys h = refl
  take-append (suc n) [] ys h = absurd (omega arith)
  take-append (suc n) (x ∷ xs) ys h = ap (◌∷◌ x) (take-append n xs ys (omega arith))

  pub take-take : (a n : ℕ) (xs : List A) → a ≤ n → take a (take n xs) ≡ take a xs
  take-take zero n xs h = refl
  take-take (suc a) zero xs h = absurd (omega arith)
  take-take (suc a) (suc n) [] h = refl
  take-take (suc a) (suc n) (x ∷ xs) h = ap (◌∷◌ x) (take-take a n xs (omega arith))

  pub All-take {κ} : (Q : A → Type κ) (n : ℕ) (xs : List A) → All Q xs → All Q (take n xs)
  All-take Q zero xs h = tt
  All-take Q (suc n) [] h = tt
  All-take Q (suc n) (x ∷ xs) h = (h.0, All-take Q n xs h.1)

  pub All-drop {κ} : (Q : A → Type κ) (n : ℕ) (xs : List A) → All Q xs → All Q (drop n xs)
  All-drop Q zero xs h = h
  All-drop Q (suc n) [] h = tt
  All-drop Q (suc n) (x ∷ xs) h = All-drop Q n xs h.1

-- The entry that a transaction on `s` appends.
abbrev pub entry_of : List Op → CommittedState → DatabaseLogEntry
entry_of ops s = record { tx_offset = s.next_tx_offset; tx_data = data_of ops s }

-- A beginning of the log belongs to the same beginning of the transactions.
pub take-entries_of :
    (n : ℕ) (txs : List (List Op)) (s : CommittedState)
    → take n (entries_of txs s) ≡ entries_of (take n txs) s
take-entries_of zero txs s = refl
take-entries_of (suc n) [] s = refl
take-entries_of (suc n) (ops ∷ txs) s =
    ap (◌∷◌ (entry_of ops s)) (take-entries_of n txs (session ops s).1)

drop-entries_of :
    (n : ℕ) (txs : List (List Op)) (s : CommittedState)
    → drop n (entries_of txs s) ≡ entries_of (drop n txs) (lead (take n txs) s)
drop-entries_of zero txs s = refl
drop-entries_of (suc n) [] s = refl
drop-entries_of (suc n) (ops ∷ txs) s = drop-entries_of n txs (session ops s).1

lead-take-drop :
    (n : ℕ) (txs : List (List Op)) (s : CommittedState)
    → lead (drop n txs) (lead (take n txs) s) ≡ lead txs s
lead-take-drop zero txs s = refl
lead-take-drop (suc n) [] s = refl
lead-take-drop (suc n) (ops ∷ txs) s = lead-take-drop n txs (session ops s).1

pub entries_of-append :
    (txs : List (List Op)) (ops : List Op) (s : CommittedState)
    → entries_of (txs ++ ops ∷ []) s ≡ entries_of txs s ++ entry_of ops (lead txs s) ∷ []
entries_of-append [] ops s = refl
entries_of-append (first ∷ txs) ops s =
    ap (◌∷◌ (entry_of first s)) (entries_of-append txs ops (session first s).1)

-- Transactions one after the other leave a valid state, and take an offset each.
pub lead-IsValid :
    (txs : List (List Op)) (s : CommittedState)
    → IsValid s
    → s.next_tx_offset + length txs < u64_mod
    → IsValid (lead txs s) × ((lead txs s).next_tx_offset ≡ s.next_tx_offset + length txs)
lead-IsValid [] s v room = (v, omega arith)
lead-IsValid (ops ∷ txs) s v room =
    let (v', _, _, next) = session_table ops s v (omega arith) in
    let rest = lead-IsValid txs (session ops s).1 v' (omega (arith, next)) in
    (rest.0, omega (arith, rest.1, next))

numbered_from :
    (txs : List (List Op)) (s : CommittedState) (i : ℕ) (e : DatabaseLogEntry)
    → IsValid s
    → s.next_tx_offset + length txs < u64_mod
    → get_elem? (entries_of txs s) i ≡ some e
    → e.tx_offset ≡ s.next_tx_offset + i
numbered_from [] s i e v room found = absurd (cc)
numbered_from (ops ∷ txs) s zero e v room found = omega (arith, offset_of_some found)
  where
    offset_of_some : {a b : DatabaseLogEntry} → some a ≡ some b → b.tx_offset ≡ a.tx_offset
    offset_of_some p = cc
numbered_from (ops ∷ txs) s (suc i) e v room found =
    let (v', _, _, next) = session_table ops s v (omega arith) in
    omega (arith, next, numbered_from txs (session ops s).1 i e v' (omega (arith, next)) found)

pub entries_of-IsNumbered :
    (txs : List (List Op)) → length txs < u64_mod → IsNumbered (entries_of txs State.new)
entries_of-IsNumbered txs room i e found =
    let zero_next : State.new.next_tx_offset ≡ 0 = unfold State.new in refl in
    omega (
      arith,
      zero_next,
      numbered_from txs State.new i e new-IsValid (omega (arith, zero_next)) found,
    )

same_begun :
    (txs : List (List Op)) (a k : ℕ)
    → a < k
    → lead (take (suc a) (take k txs)) State.new ≡ lead (take (suc a) txs) State.new
same_begun txs a k lt = ap (λ l. lead l State.new) (take-take (suc a) k txs (omega arith))

-- What a log holds behind its entry at `a`.
pub rest_of_log :
    (txs : List (List Op)) (a k : ℕ)
    → a < k
    → drop (a + 1) (entries_of (take k txs) State.new)
      ≡ entries_of (drop (suc a) (take k txs)) (lead (take (suc a) txs) State.new)
rest_of_log txs a k lt =
    ap (λ j. drop j (entries_of (take k txs) State.new)) {y = suc a} (omega arith)
    ∙ drop-entries_of (suc a) (take k txs) State.new
    ∙ ap (entries_of (drop (suc a) (take k txs))) (same_begun txs a k lt)

pub lead_rest :
    (txs : List (List Op)) (a k : ℕ)
    → a < k
    → lead (drop (suc a) (take k txs)) (lead (take (suc a) txs) State.new)
      ≡ lead (take k txs) State.new
lead_rest txs a k lt =
    ap (lead (drop (suc a) (take k txs))) (sym (same_begun txs a k lt))
    ∙ lead-take-drop (suc a) (take k txs) State.new

pub begun-IsValid :
    (txs : List (List Op)) (a : ℕ)
    → a < length txs
    → suc (length txs) < u64_mod
    → IsValid (lead (take (suc a) txs) State.new)
begun-IsValid txs a lt room =
    let zero_next : State.new.next_tx_offset ≡ 0 = unfold State.new in refl in
    (lead-IsValid (take (suc a) txs) State.new new-IsValid
      (omega (arith, zero_next, length-take (suc a) txs lt, room, lt))).0
