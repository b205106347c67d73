-- ===== src/Ledger.antt =====
-- The snarked ledger, bootstrap-sandbox/src/snarked_ledger.rs: its copy from a peer, level by level,
-- and its answers to a peer's queries. The Merkle tree is mina_tree's and the calls to the peer are
-- the client's: both are arguments. Numbers are those of a release build, which wraps.
pub mod Contents
pub mod Sync
pub mod Bin
pub mod Prefix
pub mod Tests
use openmina_poc.Base.{
  ℕ, zero, suc, ◌+◌, ◌-◌, ◌*◌, ◌/◌, ◌%◌, ◌^◌, min, List, [], ◌∷◌, ◌++◌, take, Bool, true, false,
  ◌&&◌, ◌||◌, Option, none, some, Exec, done, panic, stuck, ◌>>=◌, Result, ok, err, ◌==◌, ltb,
  if◌then◌else◌,
}

-- mina_tree: `Mask`, `Address`, the equality of hashes, and the accounts `W` of the messages.
pub record Mask (T D H A W : Type 0) : Type 0 where
  pub create : T
  pub num_accounts : T → ℕ
  pub merkle_root : T → H
  pub get_inner_hash_at_addr : T → D → Option H
  pub get : T → D → Option A
  pub set_at_index : T → ℕ → A → Option T
  pub from_index : ℕ → ℕ → D
  pub from_bytes : ℕ → List ℕ → D
  pub address_length : D → ℕ
  pub to_index : D → ℕ
  pub child_left : D → D
  pub child_right : D → D
  pub hash_eq : H → H → Bool
  pub from_account : A → W
  pub to_account : W → A

pub data Query : Type 0 where
  query_num_accounts : Query
  what_child_hashes : ℕ → List ℕ → Query
  what_contents : ℕ → List ℕ → Query

pub data Answer (H W : Type 0) : Type 0 where
  answer_num_accounts : ℕ → H → Answer H W
  child_hashes_are : H → H → Answer H W
  contents_are : List W → Answer H W

pub data Info : Type 0 where
  could_not_construct : Info
  other_info : Info

-- What `client.rpc` comes to: an error of the client, or the peer's answer.
pub data Reply (H W : Type 0) : Type 0 where
  rpc_failed : Reply H W
  replied : Result (Answer H W) Info → Reply H W

-- `client.rpc` for a root: the peers and the network are a state `S`.
abbrev pub Ask : Type 0 → Type 0 → Type 0 → Type 0
Ask S H W = S → H → Query → S × Reply H W

pub record SnarkedLedger (T H : Type 0) : Type 0 where
  pub inner : T
  pub top_hash : Option H
  pub num : ℕ

-- `u32::to_be_bytes`.
unfoldable pub to_be_bytes : ℕ → List ℕ
to_be_bytes n = n / 2 ^ 24 % 256 ∷ n / 2 ^ 16 % 256 ∷ n / 2 ^ 8 % 256 ∷ n % 256 ∷ []

-- `(pos * (1 << (32 - depth))).to_be_bytes()[..b]`: a shift takes its amount modulo 32.
unfoldable pub child_bytes : ℕ → ℕ → List ℕ
child_bytes depth pos =
    let b = min ((depth + 7) / 8) 4 in
    let p = pos * 2 ^ ((32 - depth) % 32) % 2 ^ 32 in take b (to_be_bytes p)

-- `1u64 << (35 - depth)`, where the difference wraps and the shift takes it modulo 64.
abbrev pub batch_length : ℕ → ℕ
batch_length depth = 2 ^ ((35 + (2 ^ 64 - depth % 2 ^ 64)) % 64)

-- `unwrap()`.
abbrev pub unwrap : {A : Type 0} → Option A → Exec A
unwrap none = panic
unwrap (some a) = done a

module _ {T D H A W : Type 0} (m : Mask T D H A W) where
  unfoldable pub empty_ledger : SnarkedLedger T H
  empty_ledger = record { inner = m.create; top_hash = none; num = 0 }

  -- The loop of `WhatContents`.
  unfoldable pub batch : ℕ → SnarkedLedger T H → ℕ → ℕ → ℕ → List W → Exec (List W)
  batch zero l start length offset accounts = stuck
  batch (suc fuel) l start length offset accounts =
      if offset == length
      then done accounts
      else let pos = (start + offset) % 2 ^ 64 in
        if pos == l.num then done accounts else elim (m.get l.inner (m.from_index pos 35)) [
          | some account ↦
              batch fuel l start length (offset + 1) (accounts ++ m.from_account account ∷ [])
          | none ↦ done accounts
        ]

  abbrev pub child_hashes : Option H → Option H → Exec (Answer H W)
  child_hashes (some left) (some right) = done (child_hashes_are left right)
  child_hashes (some left) none = panic
  child_hashes none right = panic

  abbrev pub num_answer : ℕ → Option H → Exec (Answer H W)
  num_answer num none = panic
  num_answer num (some hash) = done (answer_num_accounts num hash)

  unfoldable pub serve_query : SnarkedLedger T H → Query → Exec (Answer H W)
  serve_query l query_num_accounts = num_answer l.num l.top_hash
  serve_query l (what_child_hashes depth bytes) =
      let address = m.from_bytes depth bytes in
      child_hashes (m.get_inner_hash_at_addr l.inner (m.child_left address))
        (m.get_inner_hash_at_addr l.inner (m.child_right address))
  serve_query l (what_contents depth bytes) =
      let address = m.from_bytes depth bytes in
      let length = batch_length (m.address_length address) in
      batch (suc length) l (m.to_index address * length) length 0 [] >>= λ accounts.
      done (contents_are accounts)

  module _ {S : Type 0} (ask : Ask S H W) where
    -- The accounts of an answer, set in order from an index.
    unfoldable pub set_accounts : T → ℕ → List W → Exec T
    set_accounts t index [] = done t
    set_accounts t index (account ∷ accounts) =
        unwrap (m.set_at_index t index (m.to_account account)) >>= λ t'.
        set_accounts t' (index + 1) accounts

    -- The test of a subtree's hash: against the root at depth 0, against the parent's below.
    abbrev pub agrees : H → H → ℕ → H → Bool
    agrees root hash depth actual =
        (depth == 0 && m.hash_eq root actual) || (ltb 0 depth && m.hash_eq hash actual)

    -- The assertion at the end of a level.
    abbrev pub assert_hash : T × S → H → H → ℕ → Option H → Exec (T × S)
    assert_hash st root hash depth none = panic
    assert_hash st root hash depth (some actual) =
        if agrees root hash depth actual then done st else panic

    abbrev pub on_contents : T → ℕ → S × Reply H W → Exec (T × S)
    on_contents t pos (s, rpc_failed) = panic
    on_contents t pos (s, replied (err could_not_construct)) = done (t, s)
    on_contents t pos (s, replied (err other_info)) = panic
    on_contents t pos (s, replied (ok (contents_are accounts))) =
        set_accounts t (pos * 8 % 2 ^ 32) accounts >>= λ t'. done (t', s)
    on_contents t pos (s, replied (ok (child_hashes_are left right))) = panic
    on_contents t pos (s, replied (ok (answer_num_accounts num hash))) = panic

    -- `sync` is `sync_at_depth_new` with less fuel.
    abbrev pub on_children :
        (T × S → H → ℕ → ℕ → Exec (T × S)) → T → ℕ → ℕ → S × Reply H W → Exec (T × S)
    on_children sync t depth pos (s, rpc_failed) = panic
    on_children sync t depth pos (s, replied (err e)) = panic
    on_children sync t depth pos (s, replied (ok (child_hashes_are left right))) =
        sync (t, s) left (depth + 1) (pos * 2 % 2 ^ 32) >>= λ st.
        sync st right (depth + 1) ((pos * 2 + 1) % 2 ^ 32)
    on_children sync t depth pos (s, replied (ok (contents_are accounts))) = panic
    on_children sync t depth pos (s, replied (ok (answer_num_accounts num hash))) = panic

    abbrev pub on_level : (T × S → H → ℕ → ℕ → Exec (T × S)) → T → S → H → ℕ → ℕ → Exec (T × S)
    on_level sync t s root depth pos =
        if depth == 32
        then on_contents t pos (ask s root (what_contents depth (to_be_bytes pos)))
        else on_children sync t depth pos
            (ask s root (what_child_hashes depth (child_bytes depth pos)))

    abbrev pub on_hash :
        (T × S → H → ℕ → ℕ → Exec (T × S)) → T × S → H → H → ℕ → ℕ → Option H → Exec (T × S)
    on_hash sync st root hash depth pos none = panic
    on_hash sync st root hash depth pos (some actual) =
        if agrees root hash depth actual
        then done st
        else (on_level sync st.0 st.1 root depth pos >>= λ st'.
            assert_hash st' root hash depth
              (m.get_inner_hash_at_addr st'.0 (m.from_index pos depth)))

    unfoldable pub sync_at_depth_new : ℕ → H → T × S → H → ℕ → ℕ → Exec (T × S)
    sync_at_depth_new zero root st hash depth pos = stuck
    sync_at_depth_new (suc fuel) root st hash depth pos =
        on_hash (sync_at_depth_new fuel root) st root hash depth pos
          (m.get_inner_hash_at_addr st.0 (m.from_index pos depth))

    abbrev pub after_sync : H → ℕ → H → Exec (T × S) → Exec (SnarkedLedger T H × S)
    after_sync root num hash panic = panic
    after_sync root num hash stuck = stuck
    after_sync root num hash (done (t, s)) =
        if m.hash_eq (m.merkle_root t) root
        then done (record { inner = t; top_hash = some hash; num = num % 2 ^ 32 }, s)
        else panic

    abbrev pub on_num : ℕ → SnarkedLedger T H → H → S × Reply H W → Exec (SnarkedLedger T H × S)
    on_num fuel l root (s, rpc_failed) = panic
    on_num fuel l root (s, replied (err e)) = panic
    on_num fuel l root (s, replied (ok (child_hashes_are left right))) = panic
    on_num fuel l root (s, replied (ok (contents_are accounts))) = panic
    on_num fuel l root (s, replied (ok (answer_num_accounts num hash))) =
        let inner = if ltb num (m.num_accounts l.inner) then m.create else l.inner in
        after_sync root num hash (sync_at_depth_new fuel root (inner, s) hash 0 0)

    -- There are 33 levels, and a unit of fuel for each.
    unfoldable pub sync_new : SnarkedLedger T H → S → H → Exec (SnarkedLedger T H × S)
    sync_new l s root = on_num 33 l root (ask s root query_num_accounts)
