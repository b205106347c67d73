-- ===== src/Replay/Load.antt =====
-- The loading of a recording by bootstrap-sandbox/src/replay.rs, before its loop.
use openmina_poc.Base.{ℕ, List, [], ◌∷◌, Option, some, done, refl, ◌≡◌}
use openmina_poc.Base.Map.{Map, insert}
use openmina_poc.Files.{Files, bytes_key, decimal}
use openmina_poc.Record.Beside.{Beside}
use openmina_poc.Ledger.{Mask, SnarkedLedger, unwrap}
use openmina_poc.Ledger.Bin.{Bin, load_bin}
use openmina_poc.Mina.{Mina, Lawful, BestTip}
use openmina_poc.Bootstrap.{
  Staging, table_path, open_read, file_at, best_tip_name, staged_name, ledger_at, ledgers_name,
  StagedAux,
}
use openmina_poc.Record.{ancestry_name}
use openmina_poc.Record.Layout.{>>=-cong}
use openmina_poc.Replay.{Messages, Replay, load, load_ledgers}

module _ (mina : Mina) {T D H A N V : Type 0} (staging : Staging mina T H) (m : Mask T D H A V)
    (bin : Bin T H A) (messages : Messages mina staging N V) where
  -- The files that a node is loaded from beside the blocks: each is there and is read.
  pub record Loadable (height : ℕ) (files : Files) (names : List (List ℕ)) : Type 0 where
    pub best_tip : Option (BestTip mina.Block)
    pub ancestry : Option N
    pub staged_ledger_aux : Option (StagedAux mina staging)
    pub ledgers : Map (List ℕ) (SnarkedLedger T H)
    pub has_best_tip :
        open_read mina staging mina.read_best_tip (files (file_at height best_tip_name))
        ≡ done best_tip
    pub has_ancestry :
        open_read mina staging messages.read_ancestry (files (file_at height ancestry_name))
        ≡ done ancestry
    pub has_aux :
        open_read mina staging staging.read_aux (files (file_at height staged_name))
        ≡ done staged_ledger_aux
    pub has_ledgers : load_ledgers mina staging m bin messages height files names [] ≡ done ledgers

  load_ledgers-Beside :
      (height : ℕ) (files files' : Files) (names : List (List ℕ))
      (ledgers : Map (List ℕ) (SnarkedLedger T H))
      → Beside files files'
      → load_ledgers mina staging m bin messages height files' names ledgers
        ≡ load_ledgers mina staging m bin messages height files names ledgers
  unfolding load_ledgers ledger_at
  load_ledgers-Beside height files files' [] ledgers beside = refl
  load_ledgers-Beside height files files' (name ∷ names) ledgers beside =
      rw (beside height (ledgers_name ∷ name ∷ [])) (
        >>=-cong (unwrap (files (decimal height ∷ ledgers_name ∷ name ∷ []))) _ _ (λ bytes.
          >>=-cong (load_bin m bin bytes) _ _ (λ loaded. >>=-cong (unwrap loaded) _ _ (λ ledger.
            load_ledgers-Beside height files files' names (insert name ledger ledgers) beside))))

  -- Files that differ under the blocks alone are loaded as the files were, but for the table.
  pub load-Loadable :
      (height : ℕ) (files files' : Files) (names : List (List ℕ)) (table : Map (List ℕ) ℕ)
      → Lawful mina
      → Loadable height files names
      → Beside files files'
      → files' table_path ≡ some (mina.write_table table)
      → (r : Replay mina staging N V) × (load mina staging m bin messages height files' names
          ≡ done r)
        × (r.files ≡ files')
        × (r.table ≡ table)
  unfolding load file_at
  load-Loadable height files files' names table laws ready beside stored = (
    record {
      best_tip = ready.best_tip;
      ancestry = ready.ancestry;
      staged_ledger_aux = ready.staged_ledger_aux;
      ledgers = ready.ledgers;
      table = table;
      files = files';
    },
    rw (
      beside height (best_tip_name ∷ []),
      beside height (ancestry_name ∷ []),
      beside height (staged_name ∷ []),
      ready.has_best_tip,
      ready.has_ancestry,
      ready.has_aux,
      load_ledgers-Beside height files files' names [] beside,
      ready.has_ledgers,
      stored,
      laws.read-write_table table,
    ),
    refl,
    refl,
  )
