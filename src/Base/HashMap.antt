-- ===== src/Base/HashMap.antt =====
-- `std::collections::HashMap` as an association list. An iteration goes through the list in order;
-- the order of the real map is arbitrary, and so is the list that a theorem is stated for.
use mathlib.Core.Logic.{ite, if_pos, if_neg}
use distributed_omnipaxos_db.Base.Tests.{if◌then◌else◌}
use mathlib.Core.Path.{◌≡◌, refl, sym, subst}
use mathlib.Core.Bool.{Bool}
use mathlib.Core.Option.{Option, none, some}
use mathlib.Core.List.{List, [], ◌∷◌, map}
use native.Mathlib.Omega.{arith}

abbrev pub HashMap {ℓ} : Type ℓ → Type ℓ → Type ℓ
HashMap K V = List (K × V)

module _ {ℓ} {K V : Type ℓ} where
  abbrev pub keys : HashMap K V → List K
  keys = map (λ e. e.0)

  -- `retain` with a test on the value.
  unfoldable pub retain : (V → Bool) → HashMap K V → HashMap K V
  retain keep [] = []
  retain keep ((k, v) ∷ m) = let rest = retain keep m in if keep v then (k, v) ∷ rest else rest

  abbrev pub AllValues : (V → Type ℓ) → HashMap K V → Type ℓ
  AllValues P [] = Unit
  AllValues P ((k, v) ∷ m) = P v × AllValues P m

module _ {ℓ} {K V : Type ℓ} (eq : Discrete K) where
  unfoldable pub get : K → HashMap K V → Option V
  get k [] = none
  get k ((j, v) ∷ m) = ite (eq j k) (some v) (get k m)

  unfoldable pub insert : K → V → HashMap K V → HashMap K V
  insert k v [] = (k, v) ∷ []
  insert k v ((j, w) ∷ m) = ite (eq j k) ((j, v) ∷ m) ((j, w) ∷ insert k v m)

  unfoldable pub remove : K → HashMap K V → HashMap K V
  remove k [] = []
  remove k ((j, w) ∷ m) = ite (eq j k) (remove k m) ((j, w) ∷ remove k m)

  pub get-insert :
      (k j : K) (v : V) (m : HashMap K V) → get j (insert k v m) ≡ ite (eq k j) (some v) (get j m)
  unfolding get insert
  get-insert k j v [] = refl
  get-insert k j v ((i, w) ∷ m) = ground (arith, get-insert k j v m)

  pub get-remove : (k j : K) (m : HashMap K V) → get j (remove k m) ≡ ite (eq k j) none (get j m)
  unfolding get remove
  get-remove k j [] = ground arith
  get-remove k j ((i, w) ∷ m) = ground (arith, get-remove k j m)

  -- No key stands twice.
  abbrev pub Distinct : HashMap K V → Type ℓ
  Distinct [] = Unit
  Distinct ((k, v) ∷ m) = (get k m ≡ none) × Distinct m

  pub insert-Distinct : (k : K) (v : V) (m : HashMap K V) → Distinct m → Distinct (insert k v m)
  unfolding get insert
  insert-Distinct k v [] h = (refl, tt)
  insert-Distinct k v ((j, w) ∷ m) h = ground (arith, insert-Distinct k v m h.1, get-insert k j v m)

  pub remove-Distinct : (k : K) (m : HashMap K V) → Distinct m → Distinct (remove k m)
  unfolding get remove
  remove-Distinct k [] h = tt
  remove-Distinct k ((j, w) ∷ m) h = ground (arith, remove-Distinct k m h.1, get-remove k j m)

module _ {ℓ} {K V : Type ℓ} (eq : Discrete K) (P : V → Type ℓ) where
  pub get-AllValues : (k : K) (v : V) (m : HashMap K V) → AllValues P m → get eq k m ≡ some v → P v
  unfolding get
  get-AllValues k v [] h e = absurd (cc)
  get-AllValues k v ((j, w) ∷ m) h e = elim (eq j k) [
    | yes p ↦ let found : some w ≡ some v = rw (if_pos (eq j k) p) at e in subst P (cc) h.0
    | no p ↦ get-AllValues k v m h.1 (rw (if_neg (eq j k) p) at e)
  ]

  pub insert-AllValues :
      (k : K) (v : V) (m : HashMap K V) → P v → AllValues P m → AllValues P (insert eq k v m)
  unfolding insert
  insert-AllValues k v [] p h = (p, tt)
  insert-AllValues k v ((j, w) ∷ m) p h = elim (eq j k) [
    | yes e ↦ rw (if_pos (eq j k) e) (p, h.1)
    | no e ↦ rw (if_neg (eq j k) e) (h.0, insert-AllValues k v m p h.1)
  ]

module _ {ℓ} {K V : Type ℓ} (eq : Discrete K) (keep : V → Bool) where
  abbrev pub kept : Option V → Option V
  kept none = none
  kept (some v) = if keep v then some v else none

  pub get-retain :
      (j : K) (m : HashMap K V) → Distinct eq m → get eq j (retain keep m) ≡ kept (get eq j m)
  unfolding get retain
  get-retain j [] h = refl
  get-retain j ((k, v) ∷ m) h = ground (arith, get-retain j m h.1)

  pub retain-Distinct : (m : HashMap K V) → Distinct eq m → Distinct eq (retain keep m)
  unfolding retain
  retain-Distinct [] h = tt
  retain-Distinct ((k, v) ∷ m) h = ground (arith, retain-Distinct m h.1, get-retain k m h.1)

module _ {ℓ} {K V : Type ℓ} (P : K → V → Type ℓ) where
  abbrev pub AllEntries : HashMap K V → Type ℓ
  AllEntries [] = Unit
  AllEntries ((k, v) ∷ m) = P k v × AllEntries m

  pub insert-AllEntries :
      (eq : Discrete K) (k : K) (v : V) (m : HashMap K V)
      → P k v
      → AllEntries m
      → AllEntries (insert eq k v m)
  unfolding insert
  insert-AllEntries eq k v [] p h = (p, tt)
  insert-AllEntries eq k v ((j, w) ∷ m) p h = elim (eq j k) [
    | yes e ↦ rw (if_pos (eq j k) e) (subst (λ i. P i v) (sym e) p, h.1)
    | no e ↦ rw (if_neg (eq j k) e) (h.0, insert-AllEntries eq k v m p h.1)
  ]

  pub remove-AllEntries :
      (eq : Discrete K) (k : K) (m : HashMap K V) → AllEntries m → AllEntries (remove eq k m)
  unfolding remove
  remove-AllEntries eq k [] h = tt
  remove-AllEntries eq k ((j, w) ∷ m) h = elim (eq j k) [
    | yes e ↦ rw (if_pos (eq j k) e) (remove-AllEntries eq k m h.1)
    | no e ↦ rw (if_neg (eq j k) e) (h.0, remove-AllEntries eq k m h.1)
  ]
