-- ===== src/Ledger/Sync.antt =====
-- The copy from a peer: `sync_at_depth_new` and `sync_new` of
-- bootstrap-sandbox/src/snarked_ledger.rs.
use openmina_poc.Base.{
  ℕ, zero, suc, ◌+◌, ◌*◌, ◌%◌, ◌^◌, ◌≤◌, ◌≡◌, refl, ap, List, [], ◌∷◌, true, Option, none, some,
  Exec, done, panic, stuck, ◌>>=◌, ok, err, ◌==◌, ltb, if◌then◌else◌, arith, Bool-cases, inl, inr,
}
use openmina_poc.Ledger.{
  Mask, answer_num_accounts, child_hashes_are, contents_are, could_not_construct, other_info, Reply,
  rpc_failed, replied, Ask, SnarkedLedger, set_accounts, unwrap, agrees, assert_hash, on_contents,
  on_children, on_level, on_hash, sync_at_depth_new, after_sync, on_num, sync_new, what_contents,
  what_child_hashes, query_num_accounts, to_be_bytes, child_bytes,
}

-- A run does not run out of fuel, and what it is done with satisfies `P`.
abbrev pub Finishes : {A : Type 0} → (A → Type 0) → Exec A → Type 0
Finishes P (done a) = P a
Finishes P panic = Unit
Finishes P stuck = ⊥

pub >>=-Finishes :
    {A B : Type 0} (P : A → Type 0) (Q : B → Type 0) (r : Exec A) (f : A → Exec B)
    → Finishes P r
    → ((a : A) → P a → Finishes Q (f a))
    → Finishes Q (r >>= f)
>>=-Finishes P Q (done a) f h k = k a h
>>=-Finishes P Q panic f h k = tt
>>=-Finishes P Q stuck f h k = h

pub Finishes-mono :
    {A : Type 0} (P Q : A → Type 0) (r : Exec A)
    → ((a : A) → P a → Q a)
    → Finishes P r
    → Finishes Q r
Finishes-mono P Q (done a) k h = k a h
Finishes-mono P Q panic k h = tt
Finishes-mono P Q stuck k h = h

module _ {T D H A W S : Type 0} (m : Mask T D H A W) (ask : Ask S H W) where
  -- The subtree at an address has the hash that is asked for: the root's at depth 0, the parent's
  -- claim below.
  abbrev pub Agrees : H → H → ℕ → ℕ → T × S → Type 0
  Agrees root hash depth pos st =
      (actual : H) × (m.get_inner_hash_at_addr st.0 (m.from_index pos depth) ≡ some actual)
      × (agrees m ask root hash depth actual ≡ true)

  abbrev Any : {B : Type 0} → B → Type 0
  Any b = Unit

  unwrap-Finishes : {B : Type 0} (o : Option B) → Finishes Any (unwrap o)
  unwrap-Finishes none = tt
  unwrap-Finishes (some b) = tt

  set_accounts-Finishes :
      (t : T) (index : ℕ) (accounts : List W) → Finishes Any (set_accounts m ask t index accounts)
  unfolding set_accounts
  set_accounts-Finishes t index [] = tt
  set_accounts-Finishes t index (account ∷ accounts) =
      >>=-Finishes Any Any (unwrap (m.set_at_index t index (m.to_account account))) _
        (unwrap-Finishes (m.set_at_index t index (m.to_account account)))
        (λ t' u. set_accounts-Finishes t' (index + 1) accounts)

  on_contents-Finishes :
      (t : T) (pos : ℕ) (reply : S × Reply H W) → Finishes Any (on_contents m ask t pos reply)
  on_contents-Finishes t pos (s, rpc_failed) = tt
  on_contents-Finishes t pos (s, replied (err could_not_construct)) = tt
  on_contents-Finishes t pos (s, replied (err other_info)) = tt
  on_contents-Finishes t pos (s, replied (ok (contents_are accounts))) =
      >>=-Finishes Any Any (set_accounts m ask t (pos * 8 % 2 ^ 32) accounts) _
        (set_accounts-Finishes t (pos * 8 % 2 ^ 32) accounts) (λ t' u. tt)
  on_contents-Finishes t pos (s, replied (ok (child_hashes_are left right))) = tt
  on_contents-Finishes t pos (s, replied (ok (answer_num_accounts num hash))) = tt

  on_children-Finishes :
      (sync : T × S → H → ℕ → ℕ → Exec (T × S)) (t : T) (depth pos : ℕ) (reply : S × Reply H W)
      → ((st : T × S) (hash : H) (p : ℕ) → Finishes Any (sync st hash (depth + 1) p))
      → Finishes Any (on_children m ask sync t depth pos reply)
  on_children-Finishes sync t depth pos (s, rpc_failed) k = tt
  on_children-Finishes sync t depth pos (s, replied (err e)) k = tt
  on_children-Finishes sync t depth pos (s, replied (ok (child_hashes_are left right))) k =
      >>=-Finishes Any Any (sync (t, s) left (depth + 1) (pos * 2 % 2 ^ 32)) _
        (k (t, s) left (pos * 2 % 2 ^ 32)) (λ st u. k st right ((pos * 2 + 1) % 2 ^ 32))
  on_children-Finishes sync t depth pos (s, replied (ok (contents_are accounts))) k = tt
  on_children-Finishes sync t depth pos (s, replied (ok (answer_num_accounts num hash))) k = tt

  assert_hash-Finishes :
      (st : T × S) (root hash : H) (depth pos : ℕ)
      → Finishes (Agrees root hash depth pos) (
          assert_hash m ask st root hash depth
            (m.get_inner_hash_at_addr st.0 (m.from_index pos depth)))
  assert_hash-Finishes st root hash depth pos =
      go (m.get_inner_hash_at_addr st.0 (m.from_index pos depth)) refl
    where
      go :
          (o : Option H)
          → m.get_inner_hash_at_addr st.0 (m.from_index pos depth) ≡ o
          → Finishes (Agrees root hash depth pos) (assert_hash m ask st root hash depth o)
      go none e = tt
      go (some actual) e = elim (Bool-cases (agrees m ask root hash depth actual)) [
        | inl t ↦ rw t (actual, e, t)
        | inr f ↦ rw f tt
      ]

  on_level-Finishes :
      (sync : T × S → H → ℕ → ℕ → Exec (T × S)) (st : T × S) (root : H) (depth pos : ℕ)
      → ((depth ≡ 32 → ⊥)
          → (st : T × S) (hash : H) (p : ℕ) → Finishes Any (sync st hash (depth + 1) p))
      → Finishes Any (on_level m ask sync st.0 st.1 root depth pos)
  on_level-Finishes sync st root depth pos k = elim (Bool-cases (depth == 32)) [
    | inl t ↦
        rw t (on_contents-Finishes st.0 pos (ask st.1 root (what_contents depth (to_be_bytes pos))))
    | inr f ↦ rw f (
        on_children-Finishes sync st.0 depth pos
          (ask st.1 root (what_child_hashes depth (child_bytes depth pos))) (k (λ e. ground arith)))
  ]

  on_hash-Agrees :
      (sync : T × S → H → ℕ → ℕ → Exec (T × S)) (st : T × S) (root hash : H) (depth pos : ℕ)
      → ((depth ≡ 32 → ⊥)
          → (st : T × S) (hash : H) (p : ℕ) → Finishes Any (sync st hash (depth + 1) p))
      → Finishes (Agrees root hash depth pos) (
          on_hash m ask sync st root hash depth pos
            (m.get_inner_hash_at_addr st.0 (m.from_index pos depth)))
  on_hash-Agrees sync st root hash depth pos deeper =
      go (m.get_inner_hash_at_addr st.0 (m.from_index pos depth)) refl
    where
      go :
          (o : Option H)
          → m.get_inner_hash_at_addr st.0 (m.from_index pos depth) ≡ o
          → Finishes (Agrees root hash depth pos) (on_hash m ask sync st root hash depth pos o)
      go none e = tt
      go (some actual) e = elim (Bool-cases (agrees m ask root hash depth actual)) [
        | inl t ↦ rw t (actual, e, t)
        | inr f ↦ rw f (
            >>=-Finishes Any (Agrees root hash depth pos)
              (on_level m ask sync st.0 st.1 root depth pos) _
              (on_level-Finishes sync st root depth pos deeper)
              (λ st' u. assert_hash-Finishes st' root hash depth pos))
      ]

  shallow : (depth : ℕ) → depth ≤ 32 → (depth ≡ 32 → ⊥) → depth + 1 ≤ 32
  shallow depth d n = grind arith

  -- For an address of at most 32 bits, with fuel for the levels from it down: copying the subtree
  -- there ends, and unless it panics the subtree has the hash that was asked for.
  pub sync_at_depth_new-Agrees :
      (fuel : ℕ) (root : H) (st : T × S) (hash : H) (depth pos : ℕ)
      → depth ≤ 32
      → 33 ≤ fuel + depth
      → Finishes (Agrees root hash depth pos) (sync_at_depth_new m ask fuel root st hash depth pos)
  unfolding sync_at_depth_new
  sync_at_depth_new-Agrees zero root st hash depth pos d f = absurd (omega arith)
  sync_at_depth_new-Agrees (suc fuel) root st hash depth pos d f =
      on_hash-Agrees (sync_at_depth_new m ask fuel root) st root hash depth pos (λ n st' hash' p.
        Finishes-mono (Agrees root hash' (depth + 1) p) Any
          (sync_at_depth_new m ask fuel root st' hash' (depth + 1) p) (λ a h. tt)
          (sync_at_depth_new-Agrees fuel root st' hash' (depth + 1) p (shallow depth d n)
            (omega arith)))

  -- What a copy of the ledger is: the tree's root is the one asked for, by its own count and at the
  -- address of the root, and the count and the top hash are those of the peer's first answer.
  abbrev pub Copied : H → S → SnarkedLedger T H × S → Type 0
  Copied root s (l, s') =
      (num : ℕ) × (hash : H) × ((ask s root query_num_accounts).1
        ≡ replied (ok (answer_num_accounts num hash)))
      × (m.hash_eq (m.merkle_root l.inner) root ≡ true)
      × Agrees root hash 0 0 (l.inner, s')
      × (l.top_hash ≡ some hash)
      × (l.num ≡ num % 2 ^ 32)

  after_sync-Copied :
      (root : H) (s : S) (num : ℕ) (hash : H) (r : Exec (T × S))
      → (ask s root query_num_accounts).1 ≡ replied (ok (answer_num_accounts num hash))
      → Finishes (Agrees root hash 0 0) r
      → Finishes (Copied root s) (after_sync m ask root num hash r)
  after_sync-Copied root s num hash panic e h = tt
  after_sync-Copied root s num hash stuck e h = h
  after_sync-Copied root s num hash (done (t, s')) e h =
      elim (Bool-cases (m.hash_eq (m.merkle_root t) root)) [
        | inl y ↦ rw y (num, hash, e, y, h, refl, refl)
        | inr n ↦ rw n tt
      ]

-- For any tree and any peers: `sync_new` ends, and unless it panics the copied tree has the root
-- that was asked for, and the ledger's count of accounts and top hash are those of the peer's answer
-- to the first query.
pub sync_new-Copied :
    {T D H A W S : Type 0} (m : Mask T D H A W) (ask : Ask S H W) (l : SnarkedLedger T H) (s : S)
    (root : H)
    → Finishes (Copied m ask root s) (sync_new m ask l s root)
unfolding sync_new
sync_new-Copied {H = H} {W = W} {S = S} m ask l s root = go (ask s root query_num_accounts) refl
  where
    go :
        (r : S × Reply H W)
        → ask s root query_num_accounts ≡ r
        → Finishes (Copied m ask root s) (on_num m ask 33 l root r)
    go (s', rpc_failed) e = tt
    go (s', replied (err i)) e = tt
    go (s', replied (ok (child_hashes_are left right))) e = tt
    go (s', replied (ok (contents_are accounts))) e = tt
    go (s', replied (ok (answer_num_accounts num hash))) e =
        let inner = if ltb num (m.num_accounts l.inner) then m.create else l.inner in
        after_sync-Copied m ask root s num hash _ (ap (λ r. r.1) e)
          (sync_at_depth_new-Agrees m ask 33 root (inner, s') hash 0 0 (omega arith) (omega arith))
