-- ===== src/Archive/Ends.antt =====
-- The reading of the accounts by `run` of bootstrap-sandbox/src/archive_block.rs ends.
use openmina_poc.Base.{List, [], ◌∷◌, ℕ, Option, none, some}
use openmina_poc.Base.Map.{Map, get, remove}
use openmina_poc.Files.{bytes_key}
use openmina_poc.Check.{parse_u32}
use openmina_poc.Ledger.{unwrap}
use openmina_poc.Ledger.Sync.{Finishes}
use openmina_poc.Record.Ends.{Ends, >>=-Ends, unwrap-Ends, Ends-Finishes}
use openmina_poc.Archive.Genesis.{
  Values, Account, pk_name, balance_name, delegate_name, timing_name, account_of, accounts_of,
  genesis_accounts, account_values, unknown_members, assert_empty, and_str, delegate_of, balance_of,
  timing_of, amount,
}
use openmina_poc.Archive.Accounts.{IsGenesis, IsGenesis-done}

module _ {J K : Type 0} (values : Values J K) where
  balance_of-Ends : (o : Option J) → Ends (balance_of values o)
  balance_of-Ends none = tt
  balance_of-Ends (some j) =
      >>=-Ends (unwrap (values.as_str j)) _ (unwrap-Ends _) (λ s. unwrap-Ends _)

  delegate_of-Ends : (public_key : K) (o : Option (List ℕ)) → Ends (delegate_of values public_key o)
  delegate_of-Ends public_key none = tt
  delegate_of-Ends public_key (some address) = unwrap-Ends (values.from_address address)

  timing_of-Ends : (o : Option J) → Ends (timing_of values o)
  timing_of-Ends none = tt
  timing_of-Ends (some j) = >>=-Ends (unwrap (values.read_timed j)) _ (unwrap-Ends _) (λ t.
      >>=-Ends (amount values t.initial_minimum_balance) _ (unwrap-Ends _) (λ initial.
        >>=-Ends (unwrap (parse_u32 t.cliff_time.1)) _ (unwrap-Ends _) (λ cliff_time.
          >>=-Ends (amount values t.cliff_amount) _ (unwrap-Ends _) (λ cliff_amount.
            >>=-Ends (unwrap (parse_u32 t.vesting_period.1)) _ (unwrap-Ends _) (λ vesting_period.
              >>=-Ends (amount values t.vesting_increment) _ (unwrap-Ends _)
                (λ vesting_increment. tt))))))

  assert_empty-Ends :
      (account : Account K) (rest : Map (List ℕ) J) → Ends (assert_empty values account rest)
  assert_empty-Ends account [] = tt
  assert_empty-Ends account (entry ∷ rest) = tt

  account_of-Ends : (j : J) → Ends (account_of values j)
  unfolding account_of
  account_of-Ends j = >>=-Ends (unwrap (values.as_object j)) _ (unwrap-Ends _) (λ object.
      >>=-Ends (unwrap (get pk_name object)) _ (unwrap-Ends _) (λ pk.
        >>=-Ends (unwrap (values.as_str pk)) _ (unwrap-Ends _) (λ address.
          >>=-Ends (unwrap (values.from_address address)) _ (unwrap-Ends _) (λ public_key.
            >>=-Ends (balance_of values (get balance_name (remove pk_name object))) _
              (balance_of-Ends (get balance_name (remove pk_name object)))
              (λ balance.
                >>=-Ends
                  (delegate_of values public_key (
                    and_str values
                      (get delegate_name (remove balance_name (remove pk_name object)))))
                  _
                  (delegate_of-Ends public_key (
                    and_str values
                      (get delegate_name (remove balance_name (remove pk_name object)))))
                  (λ delegate.
                    >>=-Ends
                      (timing_of values (
                        get timing_name
                          (remove delegate_name (remove balance_name (remove pk_name object)))))
                      _
                      (timing_of-Ends (
                        get timing_name
                          (remove delegate_name (remove balance_name (remove pk_name object)))))
                      (λ timing. assert_empty-Ends _ (unknown_members values object))))))))

  accounts_of-Ends : (js : List J) → Ends (accounts_of values js)
  unfolding accounts_of
  accounts_of-Ends [] = tt
  accounts_of-Ends (j ∷ js) =
      >>=-Ends (account_of values j) _ (account_of-Ends j)
        (λ account. >>=-Ends (accounts_of values js) _ (accounts_of-Ends js) (λ accounts. tt))

  genesis_accounts-Ends :
      (first : List ℕ) (ledger : J) → Ends (genesis_accounts values first ledger)
  unfolding genesis_accounts
  genesis_accounts-Ends first ledger =
      >>=-Ends (unwrap (account_values values ledger)) _ (unwrap-Ends _) (λ js.
        >>=-Ends (accounts_of values js) _ (accounts_of-Ends js)
          (λ accounts. >>=-Ends (unwrap (values.from_address first)) _ (unwrap-Ends _) (λ key. tt)))

  -- On any JSON value the reading of the accounts ends, and unless it aborts: the first account is
  -- that of the given address and delegates to itself, and behind it stands, in order, one account
  -- for each value of the file's array, an object whose members are all known, with the key that its
  -- "pk" is the address of, and with the key of its delegate's address, or its own where it has none.
  pub genesis_accounts-IsGenesis :
      (first : List ℕ) (ledger : J)
      → Finishes (IsGenesis values first ledger) (genesis_accounts values first ledger)
  genesis_accounts-IsGenesis first ledger =
      Ends-Finishes (IsGenesis values first ledger) (genesis_accounts values first ledger)
        (genesis_accounts-Ends first ledger)
        (λ accounts e. IsGenesis-done values first ledger accounts e)
