-- ===== src/Ledger/Bin.antt =====
-- The snarked ledger in a file: `store_bin` and `load_bin` of
-- bootstrap-sandbox/src/snarked_ledger.rs. The tree and the codec are arguments.
use openmina_poc.Base.{
  ℕ, ◌%◌, ◌^◌, ◌+◌, ◌<◌, ◌≤◌, arith, All, length-append, ◌≢◌, ◌≡◌, refl, sym, ap, ◌∙◌, List, [],
  ◌∷◌, ◌++◌, length, append_assoc, Option, none, some, Exec, done, ◌>>=◌, append-nil,
}
use openmina_poc.Ledger.{Mask, SnarkedLedger, unwrap}

-- mina_tree: the accounts of a tree in the order of `fold`, and `get_or_create_account` under the
-- account's identifier. binprot: a root that may be there, and a vector of accounts.
pub record Bin (T H A : Type 0) : Type 1 where
  pub AccountId : Type 0
  pub account_id : A → AccountId
  pub accounts : T → List A
  pub get_or_create_account : T → AccountId → A → Option T
  pub write_hash : Option H → List ℕ
  pub read_hash : List ℕ → Option (Option H × List ℕ)
  pub write_accounts : List A → List ℕ
  pub read_accounts : List ℕ → Option (List A × List ℕ)

module _ {T D H A W : Type 0} (m : Mask T D H A W) (bin : Bin T H A) where
  unfoldable pub store_bin : SnarkedLedger T H → List ℕ
  store_bin l = bin.write_hash l.top_hash ++ bin.write_accounts (bin.accounts l.inner)

  unfoldable pub create_accounts : T → List A → Exec T
  create_accounts t [] = done t
  create_accounts t (account ∷ accounts) =
      unwrap (bin.get_or_create_account t (bin.account_id account) account) >>= λ t'.
      create_accounts t' accounts

  abbrev pub on_accounts : Option H → Option (List A × List ℕ) → Exec (Option (SnarkedLedger T H))
  on_accounts top_hash none = done none
  on_accounts top_hash (some (accounts, rest)) = create_accounts m.create accounts >>= λ inner.
      done (some (record { inner = inner; top_hash = top_hash; num = length accounts % 2 ^ 32 }))

  abbrev pub on_top_hash : Option (Option H × List ℕ) → Exec (Option (SnarkedLedger T H))
  on_top_hash none = done none
  on_top_hash (some (top_hash, rest)) = on_accounts top_hash (bin.read_accounts rest)

  unfoldable pub load_bin : List ℕ → Exec (Option (SnarkedLedger T H))
  load_bin bytes = on_top_hash (bin.read_hash bytes)

-- The accounts have different identifiers, also from those before them.
abbrev pub OtherIds : {T H A : Type 0} → Bin T H A → List A → List A → Type 0
OtherIds bin before [] = Unit
OtherIds bin before (a ∷ accounts) =
    All (λ b. bin.account_id b ≢ bin.account_id a) before × OtherIds bin (before ++ a ∷ []) accounts

-- What is relied on of binprot, of an empty tree, and of an account whose identifier is not there
-- yet, in a tree with room for it.
pub record BinLawful {T D H A W : Type 0} (m : Mask T D H A W) (bin : Bin T H A) : Type 0 where
  pub read-write_hash :
      (h : Option H) (rest : List ℕ) → bin.read_hash (bin.write_hash h ++ rest) ≡ some (h, rest)
  pub read-write_accounts :
      (accounts : List A) → bin.read_accounts (bin.write_accounts accounts) ≡ some (accounts, [])
  pub accounts-create : bin.accounts m.create ≡ []
  pub create_account :
      (t : T) (a : A)
      → All (λ b. bin.account_id b ≢ bin.account_id a) (bin.accounts t)
      → length (bin.accounts t) < 2 ^ 35
      → (t' : T) × (bin.get_or_create_account t (bin.account_id a) a ≡ some t')
        × (bin.accounts t' ≡ bin.accounts t ++ a ∷ [])

-- A tree whose accounts have different identifiers, no more of them than a tree has room for.
abbrev pub Proper : {T H A : Type 0} → Bin T H A → T → Type 0
Proper bin t = OtherIds bin [] (bin.accounts t) × (length (bin.accounts t) ≤ 2 ^ 35)

module _ {T D H A W : Type 0} (m : Mask T D H A W) (bin : Bin T H A) (laws : BinLawful m bin) where
  create_accounts-all :
      (t : T) (accounts : List A)
      → OtherIds bin (bin.accounts t) accounts
      → length (bin.accounts t) + length accounts ≤ 2 ^ 35
      → (t' : T) × (create_accounts m bin t accounts ≡ done t')
        × (bin.accounts t' ≡ bin.accounts t ++ accounts)
  unfolding create_accounts
  create_accounts-all t [] others room = (t, refl, sym (append-nil (bin.accounts t)))
  create_accounts-all t (a ∷ accounts) others room =
      let (t1, made, one) = laws.create_account t a others.0 (omega (arith, room)) in
      let longer = ap (λ (l : List A). length l) one ∙ length-append (bin.accounts t) (a ∷ []) in
      let (t2, rest, all) =
        create_accounts-all t1 accounts (rw one others.1) (omega (arith, room, longer)) in
      (
        t2,
        rw made rest,
        all
            ∙ ap (λ (l : List A). l ++ accounts) one
            ∙ append_assoc (bin.accounts t) (a ∷ []) accounts,
      )

  -- A stored ledger whose accounts have different identifiers, no more than 2 ^ 35 of them, is read
  -- back with the same accounts in the same order and with its top hash, and its count is the number
  -- of the accounts, in 32 bits.
  pub load_bin-store_bin :
      (l : SnarkedLedger T H)
      → Proper bin l.inner
      → (l' : SnarkedLedger T H) × (load_bin m bin (store_bin m bin l) ≡ done (some l'))
        × (bin.accounts l'.inner ≡ bin.accounts l.inner)
        × (l'.top_hash ≡ l.top_hash)
        × (l'.num ≡ length (bin.accounts l.inner) % 2 ^ 32)
  unfolding load_bin store_bin
  load_bin-store_bin l (others, room) =
      let (t, made, same) =
        create_accounts-all m.create (bin.accounts l.inner) (rw laws.accounts-create others)
          (rw laws.accounts-create (omega (arith, room))) in
      (
        record { inner = t; top_hash = l.top_hash; num = length (bin.accounts l.inner) % 2 ^ 32 },
        rw (
          laws.read-write_hash l.top_hash (bin.write_accounts (bin.accounts l.inner)),
          laws.read-write_accounts (bin.accounts l.inner),
          made,
        ),
        same ∙ ap (λ (l0 : List A). l0 ++ bin.accounts l.inner) laws.accounts-create,
        refl,
        refl,
      )
