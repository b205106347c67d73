-- ===== src/Record/Reapply.antt =====
-- The files that a recording leaves (bootstrap-sandbox/src/record.rs) and `again` of
-- bootstrap-sandbox/src/bootstrap.rs over them.
use openmina_poc.Base.{
  ℕ, ◌<◌, List, [], ◌∷◌, true, Option, some, Exec, done, panic, if◌then◌else◌, ◌>>=◌, ◌≡◌, sym, ap,
  subst, ◌∙◌,
}
use openmina_poc.Base.Map.{Map}
use openmina_poc.Files.{Files}
use openmina_poc.Ledger.{Mask, SnarkedLedger, unwrap, sync_new}
use openmina_poc.Ledger.Bin.{Bin, store_bin, BinLawful, Proper, load_bin-store_bin}
use openmina_poc.Mina.{Mina, Lawful, BestTip}
use openmina_poc.Bootstrap.{
  Staging, StagedAux, Storage, table_path, file_at, ledger_at, best_tip_name, staged_name,
  load_ledger, collect_states, new_storage, apply_blocks, collect_blocks, again, block_path,
}
use openmina_poc.Record.{
  Node, record_ledger, Recording, turns, download_blocks, bootstrap_storage, Downloads, read_table,
}
use openmina_poc.Record.Download.{Answers, Recorded, download_blocks-Recorded}
use openmina_poc.Record.Beside.{download_blocks-Beside, Beside}
use openmina_poc.Record.Collect.{Stops, collect_blocks-ancestors}
use openmina_poc.Ledger.Sync.{Finishes, Copied, sync_new-Copied}
use openmina_poc.Record.Layout.{>>=-done, >>=-at, >>=-cong, done-injective, Aside}

module _ (mina : Mina) {T D H A V W : Type 0} (staging : Staging mina T H) (m : Mask T D H A V)
    (bin : Bin T H A) (node : Node mina staging W V) where
  again-runs :
      (fuel height : ℕ) (files : Files) (tip : BestTip mina.Block) (name : List ℕ)
      (l : SnarkedLedger T H) (info : Option (StagedAux mina staging))
      (storage applied : Storage mina staging) (table : Map (List ℕ) ℕ) (blocks : List mina.Block)
      → (laws : Lawful mina) → staging.read_aux (staging.write_aux info) ≡ some info
      → files (file_at height best_tip_name) ≡ some (mina.write_best_tip (some tip))
      → staging.ledger_hash_value (staging.snarked_ledger_hash (mina.protocol_state tip.root))
        ≡ some name
      → load_ledger mina staging m bin (files (ledger_at height name)) ≡ done l
      → files (file_at height staged_name) ≡ some (staging.write_aux info)
      → new_storage mina staging l.inner info
          (staging.staged_ledger_hash (mina.protocol_state tip.root))
        ≡ done storage
      → files table_path ≡ some (mina.write_table table)
      → collect_blocks mina staging fuel files table
          (mina.state_hash (mina.protocol_state tip.root))
          (mina.previous_state_hash (mina.protocol_state tip.head))
          (tip.head ∷ [])
        ≡ done blocks
      → apply_blocks mina staging storage blocks (mina.protocol_state tip.root) ≡ done applied
      → again mina staging m bin fuel files height ≡ done applied
  unfolding again
  again-runs fuel height files tip name l info storage applied table blocks laws aux_law e1 e2 e3 e4
        e5 e6 e7 e8 =
      rw
        (
          e1,
          laws.read-write_best_tip (some tip),
          e2,
          e3,
          e4,
          aux_law,
          e5,
          e6,
          laws.read-write_table table,
          e7,
        )
        e8

  -- The staged ledger over a tree depends on the tree's accounts alone.
  abbrev pub ByAccounts : Type 0
  ByAccounts =
      (x : staging.ScanState) (t : T) (h : H) (y : staging.Pending)
      (find : staging.Field → Option mina.State) (t' : T)
      → bin.accounts t ≡ bin.accounts t'
      → staging.of_scan_state x t h y find ≡ staging.of_scan_state x t' h y find

  new_storage-ByAccounts :
      (t t' : T) (info : Option (StagedAux mina staging)) (hash : staging.StagedHash)
      → ByAccounts
      → bin.accounts t ≡ bin.accounts t'
      → new_storage mina staging t info hash ≡ new_storage mina staging t' info hash
  unfolding new_storage
  new_storage-ByAccounts t t' info hash alike same = >>=-cong (unwrap info) _ _ (λ aux.
      >>=-cong (collect_states mina staging aux.states []) _ _ (λ states.
        ap
          (λ (o : Option staging.Staged). unwrap o >>= λ staged_ledger.
            if staging.staged_hash_eq hash (staging.hash staged_ledger)
            then done (record { staged_ledger = staged_ledger })
            else panic)
          (alike aux.scan_state t aux.expected_ledger_hash aux.pending_coinbase _ t' same)))

  -- A ledger that a recording has copied is proper, where the trees with its root are.
  pub record_ledger-Proper :
      (w w' : W) (files files' : Files) (height : ℕ) (name : List ℕ) (root : H)
      (synced : SnarkedLedger T H)
      → ((t : T) → m.hash_eq (m.merkle_root t) root ≡ true → Proper bin t)
      → record_ledger mina staging m bin node w files height name root ≡ done (synced, w', files')
      → Proper bin synced.inner
  unfolding record_ledger
  record_ledger-Proper w w' files files' height name root synced proper e =
      let (ledger, loaded, e1) =
        >>=-done (load_ledger mina staging m bin (files (file_at height name))) _ _ e in
      let (value, named, e2) = >>=-done (unwrap (staging.ledger_hash_value root)) _ _ e1 in
      let ((synced', w''), copied, e3) = >>=-done (sync_new m node.ask ledger w root) _ _ e2 in
      let same = done-injective _ _ e3 in
      let copy =
        subst (Finishes (Copied m node.ask root w)) copied
          (sync_new-Copied m node.ask ledger w root) in
      subst (λ (l : SnarkedLedger T H). Proper bin l.inner)
        (ap (λ (r : SnarkedLedger T H × W × Files). r.0) same) (proper synced'.inner copy.3)

  module _ (laws : Lawful mina) (block_at : mina.Hash → mina.Block) where
    pub Recorded-Aside :
        (files files' : Files) (table : Map (List ℕ) ℕ)
        → Aside files files'
        → Recorded mina block_at laws node.peer files table
        → Recorded mina block_at laws node.peer files' table
    unfolding table_path block_path
    Recorded-Aside files files' table aside (read, truthful, listed, heights) = (
      ap (read_table mina node.peer) (aside _) ∙ read,
      λ height h bytes e. truthful height h bytes (sym (aside _) ∙ e),
      λ h height e. ((listed h height e).0, aside _ ∙ (listed h height e).1),
      heights,
    )

    abbrev pub Repeats : ℕ → BestTip mina.Block → Recording mina staging m bin node → Type 0
    Repeats fuel tip r =
        (storage : Storage mina staging) × (r.storage ≡ some storage)
        × (again mina staging m bin fuel r.files
              (mina.blockchain_length (mina.protocol_state tip.head))
            ≡ done storage)

    -- The chain of the tip: the peer has its blocks, and they end at the snarked one.
    abbrev pub Chained : ℕ → BestTip mina.Block → Type 0
    Chained fuel tip =
        let n =
          turns (mina.blockchain_length (mina.protocol_state tip.root))
            (mina.blockchain_length (mina.protocol_state tip.head)) in
        Answers mina block_at node.peer n tip.head
        × Stops mina laws block_at n tip.head (mina.state_hash (mina.protocol_state tip.root))
        × (n < fuel)

    applied_storage :
        (snarked : T) (info : Option (StagedAux mina staging)) (hash : staging.StagedHash)
        (blocks : List mina.Block) (prev : mina.State) (o : Option (Storage mina staging))
        → bootstrap_storage mina staging m bin node true snarked info hash blocks prev ≡ done o
        → (storage : Storage mina staging) × (applied : Storage mina staging) × (new_storage mina
              staging snarked info hash
            ≡ done storage)
          × (apply_blocks mina staging storage blocks prev ≡ done applied)
          × (o ≡ some applied)
    applied_storage snarked info hash blocks prev o e =
        let (storage, made, e1) = >>=-done (new_storage mina staging snarked info hash) _ _ e in
        let (applied, ended, e2) =
          >>=-done (apply_blocks mina staging storage blocks prev) _ _ e1 in
        (storage, applied, made, ended, sym (done-injective _ _ e2))

    pub again-after :
        (fuel : ℕ) (w : W) (files : Files) (table : Map (List ℕ) ℕ) (tip : BestTip mina.Block)
        (name : List ℕ) (snarked : SnarkedLedger T H) (info : Option (StagedAux mina staging))
        (r : Recording mina staging m bin node)
        → BinLawful m bin
        → ((i : Option (StagedAux mina staging)) → staging.read_aux (staging.write_aux i) ≡ some i)
        → ByAccounts
        → Proper bin snarked.inner
        → (let height = mina.blockchain_length (mina.protocol_state tip.head) in
            (files (file_at height best_tip_name) ≡ some (mina.write_best_tip (some tip)))
            × (files (ledger_at height name) ≡ some (store_bin m bin snarked))
            × (files (file_at height staged_name) ≡ some (staging.write_aux info)))
        → staging.ledger_hash_value (staging.snarked_ledger_hash (mina.protocol_state tip.root))
          ≡ some name
        → Recorded mina block_at laws node.peer files table
        → Chained fuel tip
        → (download_blocks mina node.peer w files
              (tip.head ∷ [])
              (mina.blockchain_length (mina.protocol_state tip.head))
              (mina.blockchain_length (mina.protocol_state tip.root))
            >>= λ d.
                bootstrap_storage mina staging m bin node true snarked.inner info
                  (staging.staged_ledger_hash (mina.protocol_state tip.root))
                  d.blocks
                  (mina.protocol_state tip.root)
                >>= λ storage.
                    done (record { client = d.client; files = d.files; storage = storage }))
          ≡ done r
        → Repeats fuel tip r
    unfolding file_at ledger_at
    again-after fuel w files table tip name snarked info r bin_laws aux_law alike proper
          (tip_file, ledger_file, aux_file) named recorded (answers, stops, lt) e =
        let snarked_state = mina.protocol_state tip.root in
        let height = mina.blockchain_length (mina.protocol_state tip.head) in
        let snarked_height = mina.blockchain_length snarked_state in
        let (d, downloaded, blocks, kept, tabled, table_file) =
          download_blocks-Recorded mina block_at laws node.peer w files table tip.head height
            snarked_height recorded answers in
        let beside =
          subst (Finishes (λ (d' : Downloads mina W). Beside files d'.files)) downloaded (
            download_blocks-Beside mina node.peer w files table (tip.head ∷ []) height
              snarked_height recorded.0) in
        let e1 = >>=-at _ _ d _ downloaded e in
        let (o, made, e2) =
          >>=-done
            (bootstrap_storage mina staging m bin node true snarked.inner info
              (staging.staged_ledger_hash snarked_state) d.blocks snarked_state)
            _ _ e1 in
        let (storage, applied, new, ended, some_applied) =
          applied_storage snarked.inner info (staging.staged_ledger_hash snarked_state) d.blocks
            snarked_state o made in
        let same = done-injective _ _ e2 in
        let (l, loaded, same_accounts, same_hash, num) =
          load_bin-store_bin m bin bin_laws snarked proper in
        let new' =
          new_storage-ByAccounts l.inner snarked.inner info
            (staging.staged_ledger_hash snarked_state) alike same_accounts
          ∙ new in
        let collected =
          collect_blocks-ancestors mina laws block_at staging (turns snarked_height height) fuel
            d.files d.table tip.head (mina.state_hash snarked_state) (tip.head ∷ []) lt kept.1
            kept.2 tabled stops in
        (
          applied,
          ap (λ (r' : Recording mina staging m bin node). r'.storage) (sym same) ∙ some_applied,
          ap
                (λ (r' : Recording mina staging m bin node).
                  again mina staging m bin fuel r'.files height)
                (sym same)
              ∙ again-runs fuel height d.files tip name l info storage applied d.table d.blocks laws
                  (aux_law info) (beside height _ ∙ tip_file) named
                  (ap (load_ledger mina staging m bin) (beside height _ ∙ ledger_file)
                    ∙ ap (λ (x : Exec (Option (SnarkedLedger T H))). x >>= λ o'. unwrap o') loaded)
                  (beside height _ ∙ aux_file) new' table_file (collected ∙ ap done (sym blocks))
                  ended,
        )
