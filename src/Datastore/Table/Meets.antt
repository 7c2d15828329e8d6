-- ===== src/Datastore/Table/Meets.antt =====
-- Transactions on any datastore (the trait of src/datastore/mod.rs) that keeps tables.
use mathlib.Core.Path.{ap₂}
use distributed_omnipaxos_db.Base.{
  ◌+◌, ◌<◌, ◌≡◌, refl, sym, ap, ◌∙◌, subst, Option, List, [], ◌∷◌, Outcome, ok, u64_mod,
}
use distributed_omnipaxos_db.Base.Utf8.{Str}
use distributed_omnipaxos_db.Datastore.Interface.{Datastore}
use distributed_omnipaxos_db.Datastore.Session.{sets, deletes}
use distributed_omnipaxos_db.Datastore.Table.{
  after, Request, gets, does, ops_of, answers, answered, serve, transact, abandon, KeepsTables,
}

pub answered_ok :
    {T : Type 0} (o : Outcome ⊥ (Option Str) × T) (q : Outcome ⊥ (List (Option Str)) × T)
    (v : Option Str) (vs : List (Option Str))
    → o.0 ≡ ok v
    → q.0 ≡ ok vs
    → answered o q ≡ (ok (v ∷ vs), q.1)
answered_ok (o, t) (r, tx) v vs e f = rw (e, f) refl

module _ {D : Datastore Str Str} (L : KeepsTables D) where
  -- A transaction in progress answers as the table does, stays open over its state, and shows the
  -- table.
  abbrev pub Answers : List Request → D.MutTx → Outcome ⊥ (List (Option Str)) × D.MutTx → Type 0
  Answers requests tx (replies, tx') =
      (replies ≡ ok (answers requests (L.shown tx)))
      × L.IsOpen tx'
      × (L.base tx' ≡ L.base tx)
      × (L.shown tx' ≡ after (ops_of requests) (L.shown tx))

  pub serve_lem :
      (requests : List Request) (tx : D.MutTx)
      → L.IsOpen tx
      → Answers requests tx (serve D requests tx)
  serve_lem [] tx o = (refl, o, refl, refl)
  serve_lem (gets key ∷ requests) tx o =
      let (replies, open_tx, base, view) = serve_lem requests tx o in
      rw
        (answered_ok (D.get_mut_tx tx key, tx) (serve D requests tx) _ _ (L.answers_get tx key o)
          replies)
        (refl, open_tx, base, view)
  serve_lem (does (sets key value) ∷ requests) tx o =
      let (open_set, base_set, shown_set) = L.takes_set tx key value o in
      let (replies, open_tx, base, view) =
        serve_lem requests (D.set_mut_tx tx key value) open_set in
      (
        replies ∙ ap (λ t. ok (answers requests t)) shown_set,
        open_tx,
        base ∙ base_set,
        view ∙ ap (after (ops_of requests)) shown_set,
      )
  serve_lem (does (deletes key) ∷ requests) tx o =
      let (old, open_delete, base_delete, shown_delete) = L.takes_delete tx key o in
      let (replies, open_tx, base, view) =
        serve_lem requests (D.delete_mut_tx tx key).1 open_delete in
      rw
        (answered_ok (D.delete_mut_tx tx key) (serve D requests (D.delete_mut_tx tx key).1) _ _ old
          (replies ∙ ap (λ t. ok (answers requests t)) shown_delete))
        (refl, open_tx, base ∙ base_delete, view ∙ ap (after (ops_of requests)) shown_delete)

  -- A transaction that commits.
  pub transact_lem :
      (requests : List Request) (s : D.State)
      → L.IsValid s
      → L.next_offset s + 1 < u64_mod
      → let (replies, committed, s') = transact D requests s in
        (replies ≡ ok (answers requests (L.memory_table s)))
        × (committed
            ≡ ok (record {
              tx_offset = L.next_offset s;
              tx_data = L.tx_data (serve D requests (D.begin_mut_tx s)).1;
            }))
        × L.IsValid s'
        × (L.memory_table s' ≡ after (ops_of requests) (L.memory_table s))
        × (L.replicated_table s' ≡ L.replicated_table s)
        × (L.next_offset s' ≡ L.next_offset s + 1)
  transact_lem requests s v room =
      let (open_tx, begun, shown) = L.begins s v in
      let tx = (serve D requests (D.begin_mut_tx s)).1 in
      let (replies, done, kept, view) = serve_lem requests (D.begin_mut_tx s) open_tx in
      let base : L.base tx ≡ s = kept ∙ begun in
      let (result, valid, table, same, next) =
        L.commits tx done (subst (λ b. L.next_offset b + 1 < u64_mod) (sym base) room) in
      (
        replies ∙ ap (λ t. ok (answers requests t)) shown,
        result ∙ ap (λ b. ok (record { tx_offset = L.next_offset b; tx_data = L.tx_data tx })) base,
        valid,
        table ∙ view ∙ ap (after (ops_of requests)) shown,
        same ∙ ap L.replicated_table base,
        next ∙ ap (λ b. L.next_offset b + 1) base,
      )

  -- A transaction that is given up.
  pub abandon_lem :
      (requests : List Request) (s : D.State)
      → L.IsValid s
      → abandon D requests s ≡ (ok (answers requests (L.memory_table s)), s)
  abandon_lem requests s v =
      let (open_tx, begun, shown) = L.begins s v in
      let tx = (serve D requests (D.begin_mut_tx s)).1 in
      let (replies, done, kept, view) = serve_lem requests (D.begin_mut_tx s) open_tx in
      ap₂ (λ r t. (r, t)) (replies ∙ ap (λ t. ok (answers requests t)) shown)
        (L.rolls_back tx ∙ kept ∙ begun)
