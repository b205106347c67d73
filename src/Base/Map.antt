-- ===== src/Base/Map.antt =====
-- `BTreeMap`: an association list in the order of its keys, over an interface of keys.
use mathlib.Core.Path.{◌≡◌, refl, ◌∙◌, subst}
use mathlib.Core.Logic.{◌↔◌, inl, inr}
use mathlib.Core.Bool.{Bool, true, false}
use mathlib.Core.Option.{Option, none, some}
use mathlib.Core.List.{List, [], ◌∷◌}
use native.Mathlib.Omega.{arith}
use Prim.Native.Nat.{ℕ}
use openmina_poc.Base.Lists.{All}
use openmina_poc.Base.Tests.{if◌then◌else◌, Bool-cases, ◌==◌, ltb, ==_iff}

-- `Ord` of a type of keys: equality, and the order in which a map is walked.
pub record Key {ℓ} (K : Type ℓ) : Type ℓ where
  pub beq : K → K → Bool
  pub before : K → K → Bool
  pub beq_iff : (a b : K) → (beq a b ≡ true) ↔ (a ≡ b)
  pub before_irrefl : (a : K) → before a a ≡ false
  pub before_trans : (a b c : K) → before a b ≡ true → before b c ≡ true → before a c ≡ true
  pub before_total : (a b : K) → beq a b ≡ false → before a b ≡ false → before b a ≡ true

pub before_trans_ℕ : (a b c : ℕ) → ltb a b ≡ true → ltb b c ≡ true → ltb a c ≡ true
before_trans_ℕ a b c p q = ground arith

pub before_total_ℕ : (a b : ℕ) → (a == b) ≡ false → ltb a b ≡ false → ltb b a ≡ true
before_total_ℕ a b p q = ground arith

pub before_irrefl_ℕ : (a : ℕ) → ltb a a ≡ false
before_irrefl_ℕ a = ground arith

instance abbrev pub nat_key : Key ℕ
nat_key = record {
  beq = ◌==◌;
  before = ltb;
  beq_iff = ==_iff;
  before_irrefl = before_irrefl_ℕ;
  before_trans = before_trans_ℕ;
  before_total = before_total_ℕ;
}

abbrev pub Map {ℓ κ} : Type ℓ → Type κ → Type (ℓ ⊔ κ)
Map K V = List (K × V)

pub beq_refl {ℓ} : {K : Type ℓ} ⦃key : Key K⦄ (a : K) → key.beq a a ≡ true
beq_refl ⦃key⦄ a = (key.beq_iff a a).1 refl

module _ {ℓ κ} {K : Type ℓ} {V : Type κ} ⦃key : Key K⦄ where
  unfoldable pub get : K → Map K V → Option V
  get k [] = none
  get k ((i, v) ∷ m) = if key.beq i k then some v else get k m

  unfoldable pub insert : K → V → Map K V → Map K V
  insert k v [] = (k, v) ∷ []
  insert k v ((i, w) ∷ m) =
      if key.beq i k
      then (k, v) ∷ m
      else if key.before k i
      then (k, v) ∷ (i, w) ∷ m
      else (i, w) ∷ insert k v m

  unfoldable pub remove : K → Map K V → Map K V
  remove k [] = []
  remove k ((i, w) ∷ m) = if key.beq i k then remove k m else (i, w) ∷ remove k m

  pub get-insert :
      (k j : K) (v : V) (m : Map K V)
      → get j (insert k v m) ≡ (if key.beq k j then some v else get j m)
  unfolding get insert
  get-insert k j v [] = refl
  get-insert k j v ((i, w) ∷ m) =
      ground (arith, key.beq_iff i k, key.beq_iff i j, key.beq_iff k j, get-insert k j v m)

  pub get-remove :
      (k j : K) (m : Map K V) → get j (remove k m) ≡ (if key.beq k j then none else get j m)
  unfolding get remove
  get-remove k j [] = ground arith
  get-remove k j ((i, w) ∷ m) =
      ground (arith, key.beq_iff i k, key.beq_iff i j, key.beq_iff k j, get-remove k j m)

  pub get-insert_self : (k : K) (v : V) (m : Map K V) → get k (insert k v m) ≡ some v
  get-insert_self k v m = get-insert k k v m ∙ rw (beq_refl k)

  pub get-insert_ne :
      (k j : K) (v : V) (m : Map K V) → key.beq k j ≡ false → get j (insert k v m) ≡ get j m
  get-insert_ne k j v m h = get-insert k j v m ∙ rw h

module _ {ℓ κ μ} {K : Type ℓ} {V : Type κ} ⦃key : Key K⦄ (P : K × V → Type μ) where
  -- What holds of every entry holds of the one that is looked up, and is kept by the operations.
  pub All-get : (k : K) (v : V) (m : Map K V) → All P m → get k m ≡ some v → P (k, v)
  unfolding get
  All-get k v [] h e = cc
  All-get k v ((i, w) ∷ m) h e = elim (Bool-cases (key.beq i k)) [
    | inl same ↦
        let found : some w ≡ some v = rw same at e in
        let value : w ≡ v = cc in
        subst (λ j. P (j, v)) ((key.beq_iff i k).0 same) (subst (λ u. P (i, u)) value h.0)
    | inr other ↦ All-get k v m h.1 (rw other at e)
  ]

  pub All-insert : (k : K) (v : V) (m : Map K V) → All P m → P (k, v) → All P (insert k v m)
  unfolding insert
  All-insert k v [] h p = (p, tt)
  All-insert k v ((i, w) ∷ m) h p = elim (Bool-cases (key.beq i k)) [
    | inl same ↦ rw same (p, h.1)
    | inr other ↦ elim (Bool-cases (key.before k i)) [
      | inl early ↦ rw (other, early) (p, h)
      | inr late ↦ rw (other, late) (h.0, All-insert k v m h.1 p)
    ]
  ]

  pub All-remove : (k : K) (m : Map K V) → All P m → All P (remove k m)
  unfolding remove
  All-remove k [] h = tt
  All-remove k ((i, w) ∷ m) h = elim (Bool-cases (key.beq i k)) [
    | inl same ↦ rw same (All-remove k m h.1)
    | inr other ↦ rw other (h.0, All-remove k m h.1)
  ]
