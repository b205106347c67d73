-- ===== src/Ledger/Contents.antt =====
-- The answer to `WhatContents` in `serve_query` of bootstrap-sandbox/src/snarked_ledger.rs.
use openmina_poc.Base.{
  ℕ, zero, suc, ◌+◌, ◌-◌, ◌*◌, ◌%◌, ◌^◌, ◌≤◌, ◌<◌, ◌≡◌, refl, sym, ap, ◌∙◌, List, [], ◌∷◌, ◌++◌,
  map, length, take, drop, append_assoc, append-nil, false, Option, none, some, done, ◌>>=◌, ◌==◌,
  ==_iff, arith, Bool-cases, ◌⊎◌, inl, inr, take_all, pow_add,
}
use native.Mathlib.Nat.{mul-le-mul_right}
use openmina_poc.Ledger.{
  Mask, what_contents, contents_are, SnarkedLedger, batch, batch_length, serve_query,
}

module _ {A : Type 0} where
  -- The account at an index.
  unfoldable pub at : ℕ → List A → Option A
  at i [] = none
  at zero (a ∷ xs) = some a
  at (suc i) (a ∷ xs) = at i xs

  at-cases :
      (i : ℕ) (xs : List A)
      → ((length xs ≤ i) × (at i xs ≡ none) × (drop i xs ≡ []))
        ⊎ ((a : A) × (i < length xs) × (at i xs ≡ some a) × (drop i xs ≡ a ∷ drop (suc i) xs))
  unfolding at
  at-cases zero [] = inl (omega arith, refl, refl)
  at-cases (suc i) [] = inl (omega arith, refl, refl)
  at-cases zero (a ∷ xs) = inr (a, omega arith, refl, refl)
  at-cases (suc i) (a ∷ xs) = elim (at-cases i xs) [
    | inl (h, n, d) ↦ inl (omega (arith, h), n, d)
    | inr (b, h, s, d) ↦ inr (b, omega (arith, h), s, d)
  ]

module _ {T D H A W : Type 0} (m : Mask T D H A W) (l : SnarkedLedger T H) (held : List A) where
  -- The ledger holds these accounts, from the first index on, and counts them.
  abbrev pub Holds : Type 0
  Holds = ((i : ℕ) → m.get l.inner (m.from_index i 35) ≡ at i held) × (l.num ≡ length held)

  -- What the loop has yet to add.
  abbrev pub left : ℕ → ℕ → ℕ → List W
  left start total offset = map m.from_account (take (total - offset) (drop (start + offset) held))

  batch-left :
      (fuel start total offset : ℕ) (accounts : List W)
      → Holds
      → start + total ≤ 2 ^ 64
      → offset ≤ total
      → total < fuel + offset
      → batch m fuel l start total offset accounts ≡ done (accounts ++ left start total offset)
  unfolding batch
  batch-left zero start total offset accounts h b o f = absurd (omega arith)
  batch-left (suc fuel) start total offset accounts h b o f = elim (Bool-cases (offset == total)) [
    | inl t ↦
        let z : total - offset ≡ 0 = omega (arith, (==_iff offset total).0 t) in
        rw (t, z) (ap done (sym (append-nil accounts)))
    | inr n ↦
        let before : offset < total = ground arith in
        let whole : (start + offset) % 2 ^ 64 ≡ start + offset = omega (arith, before) in
        elim (at-cases (start + offset) held) [
          | inl (e, missing, d) ↦
              let found = h.0 (start + offset) ∙ missing in
              let nothing = take_all {A = A} (total - offset) [] (omega arith) in
              elim (Bool-cases (start + offset == l.num)) [
                | inl c ↦ rw (n, whole, c, d, nothing) (ap done (sym (append-nil accounts)))
                | inr c ↦ rw (n, whole, c, found, d, nothing) (ap done (sym (append-nil accounts)))
              ]
          | inr (a, e, present, d) ↦
              let found = h.0 (start + offset) ∙ present in
              let count : l.num ≡ length held = h.1 in
              let more : (start + offset == l.num) ≡ false = ground arith in
              let next : total - offset ≡ suc (total - (offset + 1)) = omega (arith, before) in
              let rest =
                batch-left fuel start total (offset + 1) (accounts ++ m.from_account a ∷ []) h b
                  (omega (arith, before)) (omega arith) in
              let shift : start + (offset + 1) ≡ suc (start + offset) = omega arith in
              rw (n, whole, more, found, rest, d, next, shift)
                (ap done (append_assoc accounts (m.from_account a ∷ []) _))
        ]
  ]

  batch-whole :
      (start total : ℕ)
      → Holds
      → start + total ≤ 2 ^ 64
      → batch m (suc total) l start total 0 []
        ≡ done (map m.from_account (take total (drop start held)))
  batch-whole start total h b =
      let whole : total - 0 ≡ total = omega arith in
      let from : start + 0 ≡ start = omega arith in
      batch-left (suc total) start total 0 [] h b (omega arith) (omega arith)
      ∙ ap (λ (n : ℕ). done (map m.from_account (take n (drop (start + 0) held)))) whole
      ∙ ap (λ (n : ℕ). done (map m.from_account (take total (drop n held)))) from

batch_length_lem : (bits : ℕ) → bits ≤ 35 → batch_length bits ≡ 2 ^ (35 - bits)
batch_length_lem bits b = ap (λ (e : ℕ). 2 ^ e) (omega arith)

batch-in_range :
    (bits index : ℕ)
    → bits ≤ 35
    → index < 2 ^ bits
    → index * 2 ^ (35 - bits) + 2 ^ (35 - bits) ≤ 2 ^ 64
batch-in_range bits index b p =
    let below : suc index * 2 ^ (35 - bits) ≤ 2 ^ bits * 2 ^ (35 - bits) =
      mul-le-mul_right (2 ^ (35 - bits)) p in
    let whole : bits + (35 - bits) ≡ 35 = omega arith in
    let sum : 2 ^ bits * 2 ^ (35 - bits) ≡ 2 ^ 35 =
      sym (pow_add 2 bits (35 - bits)) ∙ ap (λ (e : ℕ). 2 ^ e) whole in
    omega (arith, below, sum)

-- For a ledger that holds accounts from index 0 on and counts them, and an address of at most 35
-- bits with its index: the answer to a query of its contents has, in order, exactly the accounts at
-- the leaves under the address, those that there are.
pub serve_query-contents :
    {T D H A W : Type 0} (m : Mask T D H A W) (l : SnarkedLedger T H) (held : List A) (depth : ℕ)
    (bytes : List ℕ) (bits index : ℕ)
    → Holds m l held
    → m.address_length (m.from_bytes depth bytes) ≡ bits
    → m.to_index (m.from_bytes depth bytes) ≡ index
    → bits ≤ 35
    → index < 2 ^ bits
    → serve_query m l (what_contents depth bytes)
      ≡ done (
          contents_are
            (map m.from_account (take (2 ^ (35 - bits)) (drop (index * 2 ^ (35 - bits)) held))))
unfolding serve_query
serve_query-contents m l held depth bytes bits index h e i b p =
    rw (e, i, batch_length_lem bits b)
      (ap (λ r. r >>= λ accounts. done (contents_are accounts))
        (batch-whole m l held (index * 2 ^ (35 - bits)) (2 ^ (35 - bits)) h
          (batch-in_range bits index b p)))
