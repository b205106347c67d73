-- ===== src/Record/Ends.antt =====
-- That `run` of bootstrap-sandbox/src/record.rs ends, whatever the peer answers.
use openmina_poc.Base.{
  ℕ, List, [], ◌∷◌, Bool, true, false, Option, none, some, Exec, done, panic, stuck, ◌>>=◌, Result,
  ok, err, ◌≡◌, refl, bytes_eq, if◌then◌else◌,
}
use openmina_poc.Base.Map.{Map, insert}
use openmina_poc.Files.{Files}
use openmina_poc.Client.{ClientError}
use openmina_poc.Ledger.{Mask, unwrap, sync_new}
use openmina_poc.Ledger.Bin.{Bin, load_bin, create_accounts, on_accounts, on_top_hash}
use openmina_poc.Ledger.Sync.{Finishes, sync_new-Copied, Copied}
use openmina_poc.Mina.{Mina}
use openmina_poc.Bootstrap.{
  Staging, StagedAux, Storage, load_ledger, new_storage, collect_states, apply_block, apply_blocks,
  after_apply, table_path, file_at,
}
use openmina_poc.Record.{
  Node, record_ledger, run, unwrap_some, unwrap_ok, download_blocks, bootstrap_storage, read_table,
  download_loop, turns, Downloads,
}
use openmina_poc.Record.Beside.{download_loop-Beside}

-- A run ends, in an abort or done.
abbrev pub Ends : {A : Type 0} → Exec A → Type 0
Ends (done a) = Unit
Ends panic = Unit
Ends stuck = ⊥

pub >>=-Ends :
    {A B : Type 0} (r : Exec A) (f : A → Exec B) → Ends r → ((a : A) → Ends (f a)) → Ends (r >>= f)
>>=-Ends (done a) f h k = k a
>>=-Ends panic f h k = tt
>>=-Ends stuck f h k = h

Finishes-Ends : {A : Type 0} (P : A → Type 0) (r : Exec A) → Finishes P r → Ends r
Finishes-Ends P (done a) h = tt
Finishes-Ends P panic h = tt
Finishes-Ends P stuck h = h

pub Ends-Finishes :
    {A : Type 0} (P : A → Type 0) (r : Exec A)
    → Ends r
    → ((a : A) → r ≡ done a → P a)
    → Finishes P r
Ends-Finishes P (done a) h k = k a refl
Ends-Finishes P panic h k = tt
Ends-Finishes P stuck h k = h

pub unwrap-Ends : {A : Type 0} (o : Option A) → Ends (unwrap o)
unwrap-Ends none = tt
unwrap-Ends (some a) = tt

unwrap_some-Ends :
    {W R : Type 0} (answer : W × Result (Option R) ClientError) → Ends (unwrap_some answer)
unwrap_some-Ends (w, ok (some r)) = tt
unwrap_some-Ends (w, ok none) = tt
unwrap_some-Ends (w, err e) = tt

unwrap_ok-Ends : {W R : Type 0} (answer : W × Result R ClientError) → Ends (unwrap_ok answer)
unwrap_ok-Ends (w, ok r) = tt
unwrap_ok-Ends (w, err e) = tt

if-Ends : {A : Type 0} (b : Bool) (x y : Exec A) → Ends x → Ends y → Ends (if b then x else y)
if-Ends true x y hx hy = hx
if-Ends false x y hx hy = hy

module _ {T D H A V : Type 0} (m : Mask T D H A V) (bin : Bin T H A) where
  create_accounts-Ends : (t : T) (accounts : List A) → Ends (create_accounts m bin t accounts)
  unfolding create_accounts
  create_accounts-Ends t [] = tt
  create_accounts-Ends t (account ∷ accounts) =
      >>=-Ends (unwrap (bin.get_or_create_account t (bin.account_id account) account)) _
        (unwrap-Ends _) (λ t'. create_accounts-Ends t' accounts)

  on_accounts-Ends :
      (top_hash : Option H) (read : Option (List A × List ℕ))
      → Ends (on_accounts m bin top_hash read)
  on_accounts-Ends top_hash none = tt
  on_accounts-Ends top_hash (some (accounts, rest)) =
      >>=-Ends (create_accounts m bin m.create accounts) _ (create_accounts-Ends m.create accounts)
        (λ inner. tt)

  on_top_hash-Ends : (read : Option (Option H × List ℕ)) → Ends (on_top_hash m bin read)
  on_top_hash-Ends none = tt
  on_top_hash-Ends (some (top_hash, rest)) = on_accounts-Ends top_hash (bin.read_accounts rest)

  pub load_bin-Ends : (bytes : List ℕ) → Ends (load_bin m bin bytes)
  unfolding load_bin
  load_bin-Ends bytes = on_top_hash-Ends (bin.read_hash bytes)

module _ (mina : Mina) {T D H A V W : Type 0} (staging : Staging mina T H) (m : Mask T D H A V)
    (bin : Bin T H A) (node : Node mina staging W V) where
  load_ledger-Ends : (file : Option (List ℕ)) → Ends (load_ledger mina staging m bin file)
  load_ledger-Ends none = tt
  load_ledger-Ends (some bytes) =
      >>=-Ends (load_bin m bin bytes) _ (load_bin-Ends m bin bytes) (λ loaded. unwrap-Ends loaded)

  record_ledger-Ends :
      (w : W) (files : Files) (height : ℕ) (name : List ℕ) (root : H)
      → Ends (record_ledger mina staging m bin node w files height name root)
  unfolding record_ledger
  record_ledger-Ends w files height name root =
      >>=-Ends (load_ledger mina staging m bin (files (file_at height name))) _
        (load_ledger-Ends (files (file_at height name)))
        (λ ledger. >>=-Ends (unwrap (staging.ledger_hash_value root)) _ (unwrap-Ends _) (λ value.
          >>=-Ends (sync_new m node.ask ledger w root) _
            (Finishes-Ends (Copied m node.ask root w) (sync_new m node.ask ledger w root)
              (sync_new-Copied m node.ask ledger w root))
            (λ synced. tt)))

  collect_states-Ends :
      (states : List mina.State) (map : Map staging.Field mina.State)
      → Ends (collect_states mina staging states map)
  unfolding collect_states
  collect_states-Ends [] map = tt
  collect_states-Ends (state ∷ states) map =
      >>=-Ends (unwrap (staging.to_fp (mina.state_hash state))) _ (unwrap-Ends _)
        (λ key. collect_states-Ends states (insert ⦃key = staging.field_key⦄ key state map))

  new_storage-Ends :
      (tree : T) (info : Option (StagedAux mina staging)) (hash : staging.StagedHash)
      → Ends (new_storage mina staging tree info hash)
  unfolding new_storage
  new_storage-Ends tree info hash = >>=-Ends (unwrap info) _ (unwrap-Ends info) (λ aux.
      >>=-Ends (collect_states mina staging aux.states []) _ (collect_states-Ends aux.states [])
        (λ states.
          >>=-Ends (unwrap _) _ (unwrap-Ends _)
            (λ staged. if-Ends (staging.staged_hash_eq hash (staging.hash staged)) _ panic tt tt)))

  after_apply-Ends :
      (state : mina.State) (applied : Option (staging.Staged × staging.StagedHash))
      → Ends (after_apply mina staging state applied)
  after_apply-Ends state none = tt
  after_apply-Ends state (some (staged, hash)) =
      if-Ends (bytes_eq (staging.to_json hash) (staging.to_json (staging.staged_ledger_hash state)))
        _ panic tt tt

  apply_block-Ends :
      (storage : Storage mina staging) (block : mina.Block) (prev : mina.State)
      → Ends (apply_block mina staging storage block prev)
  unfolding apply_block
  apply_block-Ends storage block prev =
      if-Ends
        (mina.hash_eq (mina.previous_state_hash (mina.protocol_state block)) (mina.state_hash prev))
        _ panic
        (after_apply-Ends (mina.protocol_state block)
          (staging.apply storage.staged_ledger block prev false))
        tt

  apply_blocks-Ends :
      (storage : Storage mina staging) (blocks : List mina.Block) (prev : mina.State)
      → Ends (apply_blocks mina staging storage blocks prev)
  unfolding apply_blocks
  apply_blocks-Ends storage [] prev = tt
  apply_blocks-Ends storage (block ∷ blocks) prev =
      >>=-Ends (apply_block mina staging storage block prev) _ (apply_block-Ends storage block prev)
        (λ storage'. apply_blocks-Ends storage' blocks (mina.protocol_state block))

  bootstrap_storage-Ends :
      (bootstrap : Bool) (tree : T) (info : Option (StagedAux mina staging))
      (hash : staging.StagedHash) (blocks : List mina.Block) (prev : mina.State)
      → Ends (bootstrap_storage mina staging m bin node bootstrap tree info hash blocks prev)
  bootstrap_storage-Ends false tree info hash blocks prev = tt
  bootstrap_storage-Ends true tree info hash blocks prev =
      >>=-Ends (new_storage mina staging tree info hash) _ (new_storage-Ends tree info hash)
        (λ storage.
          >>=-Ends (apply_blocks mina staging storage blocks prev) _
            (apply_blocks-Ends storage blocks prev) (λ applied. tt))

  read_table-Ends : (file : Option (List ℕ)) → Ends (read_table mina node.peer file)
  read_table-Ends none = tt
  read_table-Ends (some bytes) = unwrap-Ends (mina.read_table bytes)

  download_blocks-Ends :
      (w : W) (files : Files) (blocks : List mina.Block) (head_height snarked_height : ℕ)
      → Ends (download_blocks mina node.peer w files blocks head_height snarked_height)
  unfolding download_blocks
  download_blocks-Ends w files blocks head_height snarked_height =
      >>=-Ends (read_table mina node.peer (files table_path)) _ (read_table-Ends (files table_path))
        (λ table.
          >>=-Ends (download_loop mina node.peer (turns snarked_height head_height) (begin table)) _
            (Finishes-Ends _ _ (
              download_loop-Beside mina node.peer files (turns snarked_height head_height)
                (begin table) (λ h rest. refl)))
            (λ d. tt))
    where
      begin : Map (List ℕ) ℕ → Downloads mina W
      begin table = record { client = w; files = files; table = table; blocks = blocks }

  -- With any files, a node each of whose calls returns, with any answer or an error, and any staged
  -- ledger, a recording ends: it is done or it aborts, and no loop of it turns for ever.
  pub run-Ends :
      (w : W) (files : Files) (bootstrap : Bool)
      → Ends (run mina staging m bin node w files bootstrap)
  unfolding run
  run-Ends w files bootstrap =
      >>=-Ends (unwrap_some (node.best_tip w)) _ (unwrap_some-Ends _) (λ (w1, tip).
        >>=-Ends (unwrap_some (node.ancestry w1 (mina.protocol_state tip.head))) _
          (unwrap_some-Ends _)
          (λ (w2, ancestry).
            >>=-Ends (record_ledger mina staging m bin node w2 _ _ _ _) _
              (record_ledger-Ends w2 _ _ _ _)
              (λ (epoch, w3, files3).
                >>=-Ends (record_ledger mina staging m bin node w3 files3 _ _ _) _
                  (record_ledger-Ends w3 files3 _ _ _)
                  (λ (snarked, w4, files4).
                    >>=-Ends (unwrap_ok (node.staged_aux w4 _)) _ (unwrap_ok-Ends _) (λ (w5, info).
                      >>=-Ends (download_blocks mina node.peer w5 _ _ _ _) _
                        (download_blocks-Ends w5 _ _ _ _)
                        (λ d.
                          >>=-Ends (bootstrap_storage mina staging m bin node bootstrap _ _ _ _ _) _
                            (bootstrap_storage-Ends bootstrap _ _ _ _ _) (λ storage. tt)))))))
