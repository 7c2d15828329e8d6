-- ===== src/Main.antt =====
-- src/main.rs: starting the five servers and waiting for their tasks.
use distributed_omnipaxos_db.Base.{
  ℕ, ◌<◌, ◌≡◌, refl, sym, subst, if_neg, All, ap, ◌∙◌, ◌↔◌, some, List, [], ◌∷◌, arith, inl, inr,
  ℕ_discrete, Outcome, ok, err, panic, ◌>>=◌, map_err,
}
use distributed_omnipaxos_db.Base.HashMap
use distributed_omnipaxos_db.Base.HashMap.{HashMap, AllEntries, insert-AllEntries}
use distributed_omnipaxos_db.Durability.OmniPaxos.{OmniPaxos}
use distributed_omnipaxos_db.Durability.OmniPaxosDurability.{unwrap}
use distributed_omnipaxos_db.Node.State
use distributed_omnipaxos_db.Node.State.{Node}
use distributed_omnipaxos_db.Cluster.{spawn, spawn_nodes}
use distributed_omnipaxos_db.Cluster.Spawning.{In, Once, Builds, spawn_nodes_lem}

abbrev pub servers : List ℕ
servers = 1 ∷ 2 ∷ 3 ∷ 4 ∷ 5 ∷ []

-- `joined`: how the task of a node ends, by the node's number.
module _ (P : OmniPaxos) {JoinError : Type 0} (joined : ℕ → Outcome JoinError (Unit {0})) where
  unfoldable pub wait_for : HashMap ℕ (Node P ℕ × ℕ) → Outcome JoinError (Unit {0})
  wait_for [] = ok tt
  wait_for ((id, node) ∷ nodes) = do _ ← joined id; wait_for nodes

  unfoldable pub main : Outcome JoinError (Unit {0})
  unfolding wait_for
  main = do nodes ← map_err (λ e. absurd e) (spawn_nodes P servers); wait_for nodes

both_joined :
    {E : Type 0} (a b : Outcome E (Unit {0})) → (a >>= λ _. b) ≡ ok tt → (a ≡ ok tt) × (b ≡ ok tt)
both_joined (ok u) b e = (refl, e)
both_joined (err x) b e = absurd (cc e)
both_joined panic b e = absurd (cc e)

module _ (P : OmniPaxos) {JoinError : Type 0} (joined : ℕ → Outcome JoinError (Unit {0})) where
  abbrev Joins : ℕ → Node P ℕ × ℕ → Type 0
  Joins id node = joined id ≡ ok tt

  waited :
      (nodes : HashMap ℕ (Node P ℕ × ℕ)) → AllEntries Joins nodes → wait_for P joined nodes ≡ ok tt
  unfolding wait_for
  waited [] h = refl
  waited ((id, node) ∷ nodes) h = rw h.0 (waited nodes h.1)

  wait_for-AllEntries :
      (nodes : HashMap ℕ (Node P ℕ × ℕ)) → wait_for P joined nodes ≡ ok tt → AllEntries Joins nodes
  unfolding wait_for
  wait_for-AllEntries [] e = tt
  wait_for-AllEntries ((id, node) ∷ nodes) e =
      let (first, rest) = both_joined (joined id) (wait_for P joined nodes) e in
      (first, wait_for-AllEntries nodes rest)

  get-joined :
      (nodes : HashMap ℕ (Node P ℕ × ℕ)) (id : ℕ) (node : Node P ℕ × ℕ)
      → AllEntries Joins nodes
      → HashMap.get ℕ_discrete id nodes ≡ some node
      → joined id ≡ ok tt
  unfolding HashMap.get
  get-joined [] id node h found = absurd (cc found)
  get-joined ((j, first) ∷ nodes) id node h found = elim (ℕ_discrete j id) [
    | yes same ↦ ap joined (sym same) ∙ h.0
    | no other ↦ get-joined nodes id node h.1 (sym (if_neg (ℕ_discrete j id) other _ _) ∙ found)
  ]

-- A sequence that succeeds had a first part that did.
bound_ok :
    {A B : Type 0} (o : Outcome ⊥ A) (k : A → Outcome ⊥ B) {b : B}
    → (o >>= k) ≡ ok b
    → (a : A) × (o ≡ ok a) × (k a ≡ ok b)
bound_ok (ok a) k e = (a, refl, e)
bound_ok (err x) k e = absurd x
bound_ok panic k e = absurd (cc e)

module _ (P : OmniPaxos) (Q : ℕ → Type 0) where
  abbrev EachHas : HashMap ℕ (Node P ℕ × ℕ) → Type 0
  EachHas = AllEntries (λ id node. Q id)

  -- The loop makes nodes for the servers alone.
  spawn-EachHas :
      (servers pids : List ℕ) (senders receivers : HashMap ℕ ℕ)
      (nodes nodes' : HashMap ℕ (Node P ℕ × ℕ))
      → ((id : ℕ) → In id pids → Q id)
      → EachHas nodes
      → spawn P servers pids senders receivers nodes ≡ ok nodes'
      → EachHas nodes'
  unfolding spawn
  spawn-EachHas all [] senders receivers nodes nodes' q h e = subst EachHas (cc e) h
  spawn-EachHas all (pid ∷ pids) senders receivers nodes nodes' q h e =
      let (r, _, then_node) = bound_ok (unwrap (HashMap.get ℕ_discrete pid receivers)) _ e in
      let (n, _, then_loop) =
        bound_ok (State.new P ℕ pid all (HashMap.remove ℕ_discrete pid senders)) _ then_node in
      spawn-EachHas all pids senders (HashMap.remove ℕ_discrete pid receivers)
        (HashMap.insert ℕ_discrete pid (n, r) nodes) nodes' (λ id i. q id (inr i))
        (insert-AllEntries (λ id node. Q id) ℕ_discrete pid (n, r) nodes (q pid (inl refl)) h)
        then_loop

abbrev Rising : List ℕ → Type 0
Rising [] = Unit
Rising (x ∷ xs) = All (λ y. x < y) xs × Rising xs

above : (x : ℕ) (xs : List ℕ) → All (λ y. x < y) xs → ¬ In x xs
above x [] h i = i
above x (y ∷ ys) h (inl e) = absurd (omega (arith, h.0, e))
above x (y ∷ ys) h (inr i) = above x ys h.1 i

rising : (xs : List ℕ) → Rising xs → Once xs
rising [] h = tt
rising (x ∷ xs) h = (above x xs h.0, rising xs h.1)

pub servers-Once : Once servers
servers-Once = rising servers (
  (omega arith, (omega arith, (omega arith, (omega arith, tt)))),
  (
    (omega arith, (omega arith, (omega arith, tt))),
    ((omega arith, (omega arith, tt)), ((omega arith, tt), (tt, tt))),
  ),
)

-- Where OmniPaxos can be built for each of the five servers, the program ends without an error just
-- if the task of each server ends without one.
pub main_lem :
    (P : OmniPaxos) {JoinError : Type 0} (joined : ℕ → Outcome JoinError (Unit {0}))
    → Builds P servers
    → (main P joined ≡ ok tt) ↔ ((id : ℕ) → In id servers → joined id ≡ ok tt)
unfolding main spawn_nodes
main_lem P joined builds =
    let (nodes, done, linked) = spawn_nodes_lem P servers servers-Once builds in
    rw done (
      λ e id i.
          let (na, nb, ca, cb, found, _, _, _, _) = linked id id i i in
          get-joined P joined nodes id (na, ca) (wait_for-AllEntries P joined nodes e) found,
      λ all.
          waited P joined nodes
            (spawn-EachHas P (λ id. joined id ≡ ok tt) servers servers _ _ [] nodes all tt done),
    )
