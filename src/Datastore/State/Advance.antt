-- ===== src/Datastore/State/Advance.antt =====
-- What moving the replicated durability offset, and rolling back to it, do to the committed state
-- (src/datastore/example_datastore.rs).
use distributed_omnipaxos_db.Base.{
  ℕ, suc, ◌<◌, ◌≡◌, refl, Option, none, some, [], ◌∷◌, arith, ite, leb, if◌then◌else◌,
}
use distributed_omnipaxos_db.Base.HashMap
use distributed_omnipaxos_db.Base.HashMap.{
  HashMap, Distinct, AllValues, get-insert, get-remove, get-retain, kept,
}
use distributed_omnipaxos_db.Base.Utf8.{Str, str_discrete}
use distributed_omnipaxos_db.TxData.{TxOffset}
use distributed_omnipaxos_db.Datastore.State.{
  Diff, insert, delete, TxDiff, inserted, apply_diff, drain, drain_all,
}
use distributed_omnipaxos_db.Datastore.State.Views.{History, history_in, newest, Rising, IsHistory}

-- The entries of a history that a given offset covers, and the others.
abbrev pub upto : TxOffset → History → History
upto o [] = []
upto o ((q, d) ∷ h) = if leb q o then (q, d) ∷ upto o h else upto o h

abbrev pub beyond : TxOffset → History → History
beyond o [] = []
beyond o ((q, d) ∷ h) = if leb q o then beyond o h else (q, d) ∷ beyond o h

abbrev pub tail_of : History → History
tail_of [] = []
tail_of (e ∷ h) = h

get-apply_diff :
    (k j : Str) (d : Diff) (state : HashMap Str Str)
    → HashMap.get str_discrete j (apply_diff k d state)
      ≡ ite (str_discrete k j) (inserted d) (HashMap.get str_discrete j state)
unfolding apply_diff
get-apply_diff k j (insert v) state = get-insert str_discrete k j v state
get-apply_diff k j delete state = get-remove str_discrete k j state

-- Nothing is covered where all offsets are above.
upto-Rising : (o lo hi : ℕ) (h : History) → o < lo → Rising lo hi h → upto o h ≡ []
upto-Rising o lo hi [] lt r = refl
upto-Rising o lo hi ((q, d) ∷ h) lt r = ground (arith, upto-Rising o (suc q) hi h)

beyond-Rising : (o lo hi : ℕ) (h : History) → o < lo → Rising lo hi h → beyond o h ≡ h
beyond-Rising o lo hi [] lt r = refl
beyond-Rising o lo hi ((q, d) ∷ h) lt r = ground (arith, beyond-Rising o (suc q) hi h)

-- On rising offsets the loop writes what the offset covers, and keeps the rest without its first.
pub drain-Rising :
    (o lo hi : ℕ) (k j : Str) (h : History) (state : HashMap Str Str)
    → Rising lo hi h
    → ((drain o k h state).0 ≡ tail_of (beyond o h))
      × (HashMap.get str_discrete j (drain o k h state).1
          ≡ ite
              (str_discrete k j)
              (newest (upto o h) (HashMap.get str_discrete j state))
              (HashMap.get str_discrete j state))
unfolding drain
drain-Rising o lo hi k j [] state r = (refl, ground arith)
drain-Rising o lo hi k j ((q, d) ∷ h) state r = ground (
  arith,
  drain-Rising o (suc q) hi k j h (apply_diff k d state),
  get-apply_diff k j d state,
  upto-Rising o (suc q) hi h,
  beyond-Rising o (suc q) hi h,
)

abbrev pub drained : TxOffset → Option TxDiff → Option TxDiff
drained o none = none
drained o (some d) = some (record { history = tail_of (beyond o d.history) })

pub drain_all-get :
    (o hi : ℕ) (j : Str) (m : HashMap Str TxDiff) (state : HashMap Str Str)
    → Distinct str_discrete m
    → AllValues (IsHistory hi) m
    → (HashMap.get str_discrete j (drain_all o m state).0
        ≡ drained o (HashMap.get str_discrete j m))
      × (HashMap.get str_discrete j (drain_all o m state).1
          ≡ newest
              (upto o (history_in (HashMap.get str_discrete j m)))
              (HashMap.get str_discrete j state))
unfolding drain_all HashMap.get
drain_all-get o hi j [] state u a = (refl, refl)
drain_all-get o hi j ((k, d) ∷ m) state u a = ground (
  arith,
  drain-Rising o 0 hi k j d.history state a.0.1,
  drain_all-get o hi j m (drain o k d.history state).1 u.1 a.1,
)
