-- ===== src/Archive/Accounts.antt =====
-- The accounts that `run` of bootstrap-sandbox/src/archive_block.rs takes from a JSON file.
use openmina_poc.Base.{
  ℕ, List, [], ◌∷◌, Option, none, some, done, ◌≡◌, refl, sym, ap, ◌∙◌, ◌⊎◌, inl, inr, Bool-cases,
  subst, bytes_eq,
}
use openmina_poc.Base.Map.{Map, get, remove, get-remove}
use openmina_poc.Files.{bytes_key, bytes_eq_iff}
use openmina_poc.Ledger.{unwrap}
use openmina_poc.Record.Layout.{>>=-done, done-injective, unwrap-done}
use openmina_poc.Archive.Genesis.{
  Values, Account, pk_name, balance_name, delegate_name, timing_name, sk_name, account_of,
  accounts_of, genesis_accounts, account_values, unknown_members, assert_empty, and_str,
  delegate_of, balance_of, timing_of,
}

get-removed :
    {J : Type 0} (k j : List ℕ) (object : Map (List ℕ) J)
    → get j (remove k object) ≡ none
    → (get j object ≡ none) ⊎ (k ≡ j)
get-removed k j object e = elim (Bool-cases (bytes_key.beq k j)) [
  | inl same ↦ inr ((bytes_eq_iff k j).0 same)
  | inr other ↦ inl (rw other at (sym (get-remove k j object) ∙ e))
]

module _ {J K : Type 0} (values : Values J K) where
  abbrev pub Known : List ℕ → Type 0
  Known k =
      (pk_name ≡ k) ⊎ (balance_name ≡ k) ⊎ (delegate_name ≡ k) ⊎ (timing_name ≡ k) ⊎ (sk_name ≡ k)

  members-Known :
      (object : Map (List ℕ) J) (k : List ℕ)
      → unknown_members values object ≡ []
      → (get k object ≡ none) ⊎ Known k
  unfolding get
  members-Known object k e =
      let a = remove pk_name object in
      let b = remove balance_name a in
      let c = remove delegate_name b in
      let d = remove timing_name c in
      elim (get-removed sk_name k d (ap (get k) e)) [
        | inr is_sk ↦ inr (inr (inr (inr (inr is_sk))))
        | inl in_d ↦ elim (get-removed timing_name k c in_d) [
          | inr is_timing ↦ inr (inr (inr (inr (inl is_timing))))
          | inl in_c ↦ elim (get-removed delegate_name k b in_c) [
            | inr is_delegate ↦ inr (inr (inr (inl is_delegate)))
            | inl in_b ↦ elim (get-removed balance_name k a in_b) [
              | inr is_balance ↦ inr (inr (inl is_balance))
              | inl in_a ↦ elim (get-removed pk_name k object in_a) [
                | inr is_pk ↦ inr (inl is_pk)
                | inl absent ↦ inl absent
              ]
            ]
          ]
        ]
      ]

  -- The delegate is the account's own key where the object has no string for one, and otherwise that
  -- of its address.
  abbrev pub Delegates : Map (List ℕ) J → K → K → Type 0
  Delegates object public_key delegate =
      ((and_str values (get delegate_name object) ≡ none) × (delegate ≡ public_key))
      ⊎ ((address : List ℕ) × (and_str values (get delegate_name object) ≡ some address)
          × (values.from_address address ≡ some delegate))

  -- An account is that of a value: an object with no unknown member, whose "pk" is the address of the
  -- account's key.
  abbrev pub IsAccount : J → Account K → Type 0
  IsAccount j account =
      (object : Map (List ℕ) J) × (values.as_object j ≡ some object)
      × ((k : List ℕ) → (get k object ≡ none) ⊎ Known k)
      × ((pk : J) × (address : List ℕ) × (get pk_name object ≡ some pk)
          × (values.as_str pk ≡ some address)
          × (values.from_address address ≡ some account.public_key))
      × ((delegate : K) × (account.delegate ≡ some delegate)
          × Delegates object account.public_key delegate)

  delegate_of-Delegates :
      (object : Map (List ℕ) J) (public_key delegate : K) (address : Option (List ℕ))
      → and_str values (get delegate_name object) ≡ address
      → delegate_of values public_key address ≡ done delegate
      → Delegates object public_key delegate
  delegate_of-Delegates object public_key delegate none e made =
      inl (e, sym (done-injective public_key delegate made))
  delegate_of-Delegates object public_key delegate (some address) e made =
      inr (address, e, unwrap-done (values.from_address address) delegate made)

  get-delegate :
      (object : Map (List ℕ) J)
      → get delegate_name (remove balance_name (remove pk_name object)) ≡ get delegate_name object
  unfolding bytes_eq
  get-delegate object =
      get-remove balance_name delegate_name (remove pk_name object)
      ∙ get-remove pk_name delegate_name object

  assert_empty-done :
      (account a : Account K) (rest : Map (List ℕ) J)
      → assert_empty values account rest ≡ done a
      → (rest ≡ []) × (account ≡ a)
  assert_empty-done account a [] e = (refl, done-injective account a e)
  assert_empty-done account a (entry ∷ rest) e = absurd cc

  account_of-IsAccount : (j : J) (a : Account K) → account_of values j ≡ done a → IsAccount j a
  unfolding account_of
  account_of-IsAccount j a e =
      let (object, read, e1) = >>=-done (unwrap (values.as_object j)) _ _ e in
      let (pk, got, e2) = >>=-done (unwrap (get pk_name object)) _ _ e1 in
      let (address, str, e3) = >>=-done (unwrap (values.as_str pk)) _ _ e2 in
      let (public_key, key, e4) = >>=-done (unwrap (values.from_address address)) _ _ e3 in
      let (balance, b, e5) =
        >>=-done (balance_of values (get balance_name (remove pk_name object))) _ _ e4 in
      let (delegate, d, e6) =
        >>=-done
          (delegate_of values public_key
            (and_str values (get delegate_name (remove balance_name (remove pk_name object)))))
          _ _ e5 in
      let (timing, t, e7) =
        >>=-done
          (timing_of values
            (get timing_name (remove delegate_name (remove balance_name (remove pk_name object)))))
          _ _ e6 in
      let (none_left, same) = assert_empty-done _ a (unknown_members values object) e7 in
      let keys : public_key ≡ a.public_key = ap (λ (x : Account K). x.public_key) same in
      (
        object,
        unwrap-done (values.as_object j) object read,
        λ k. members-Known object k none_left,
        (
          pk,
          address,
          unwrap-done (get pk_name object) pk got,
          unwrap-done (values.as_str pk) address str,
          unwrap-done (values.from_address address) public_key key ∙ ap some keys,
        ),
        (
          delegate,
          ap (λ (x : Account K). x.delegate) (sym same),
          subst (λ (k : K). Delegates object k delegate) keys
              (delegate_of-Delegates object public_key delegate _
                (ap (and_str values) (sym (get-delegate object))) d),
        ),
      )

  abbrev pub AllAccounts : List J → List (Account K) → Type 0
  AllAccounts [] [] = Unit
  AllAccounts [] (a ∷ accounts) = ⊥
  AllAccounts (j ∷ js) [] = ⊥
  AllAccounts (j ∷ js) (a ∷ accounts) = IsAccount j a × AllAccounts js accounts

  accounts_of-AllAccounts :
      (js : List J) (accounts : List (Account K))
      → accounts_of values js ≡ done accounts
      → AllAccounts js accounts
  unfolding accounts_of
  accounts_of-AllAccounts [] accounts e = subst (AllAccounts []) (done-injective [] accounts e) tt
  accounts_of-AllAccounts (j ∷ js) accounts e =
      let (a, one, e1) = >>=-done (account_of values j) _ _ e in
      let (rest, more, e2) = >>=-done (accounts_of values js) _ _ e1 in
      subst (AllAccounts (j ∷ js)) (done-injective (a ∷ rest) accounts e2)
        (account_of-IsAccount j a one, accounts_of-AllAccounts js rest more)

  -- The accounts of a genesis file: the first is the given address's, which delegates to itself, and
  -- behind it stands one account for each value of the file, in order, and none else.
  abbrev pub IsGenesis : List ℕ → J → List (Account K) → Type 0
  IsGenesis first ledger accounts =
      (head : Account K) × (rest : List (Account K)) × (js : List J) × (accounts ≡ head ∷ rest)
      × (values.from_address first ≡ some head.public_key)
      × (head.delegate ≡ some head.public_key)
      × (account_values values ledger ≡ some js)
      × AllAccounts js rest

  pub IsGenesis-done :
      (first : List ℕ) (ledger : J) (accounts : List (Account K))
      → genesis_accounts values first ledger ≡ done accounts
      → IsGenesis first ledger accounts
  unfolding genesis_accounts
  IsGenesis-done first ledger accounts e =
      let (js, array, e1) = >>=-done (unwrap (account_values values ledger)) _ _ e in
      let (rest, made, e2) = >>=-done (accounts_of values js) _ _ e1 in
      let (key, address, e3) = >>=-done (unwrap (values.from_address first)) _ _ e2 in
      (
        _,
        rest,
        js,
        sym (done-injective _ accounts e3),
        unwrap-done (values.from_address first) key address,
        refl,
        unwrap-done (account_values values ledger) js array,
        accounts_of-AllAccounts js rest made,
      )
