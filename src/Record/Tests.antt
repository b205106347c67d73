-- ===== src/Record/Tests.antt =====
-- The theorems on recordings (bootstrap-sandbox/src/record.rs, src/bootstrap.rs) at concrete inputs:
-- a best tip 5 over the snarked block 2, and a first recording.
use openmina_poc.Base.{ℕ, ◌≡◌, List, [], ◌∷◌, some, done, arith}
use openmina_poc.Ledger.{SnarkedLedger}
use openmina_poc.Ledger.Bin.{store_bin, load_bin, load_bin-store_bin}
use openmina_poc.Ledger.Tests.{tree}
use openmina_poc.Bootstrap.{table_path}
use openmina_poc.Record.{download_blocks, Downloads, turns}
use openmina_poc.Record.Example.{
  numbered, numbered-Lawful, chain_peer, bin, bin-Lawful, no_files, block_at, nothing-Recorded,
  answering,
}
use openmina_poc.Record.Download.{Recorded, Tabled, download_blocks-Recorded}

download_blocks-Recorded_example :
    (d : Downloads numbered (Unit {0})) × (download_blocks numbered chain_peer tt no_files
        (5 ∷ [])
        5
        2
      ≡ done d)
    × (d.blocks ≡ 3 ∷ 4 ∷ 5 ∷ [])
    × Recorded numbered block_at numbered-Lawful chain_peer d.files d.table
    × Tabled numbered block_at 2 5 d.table
    × (d.files table_path ≡ some (numbered.write_table d.table))
unfolding turns
download_blocks-Recorded_example =
    download_blocks-Recorded numbered block_at numbered-Lawful chain_peer tt no_files [] 5 5 2
      nothing-Recorded answering

abbrev two_accounts : SnarkedLedger (List ℕ) ℕ
two_accounts = record { inner = 7 ∷ 8 ∷ []; top_hash = some 9; num = 2 }

load_bin-store_bin_example :
    (l : SnarkedLedger (List ℕ) ℕ) × (load_bin tree bin (store_bin tree bin two_accounts)
      ≡ done (some l))
    × (l.inner ≡ 7 ∷ 8 ∷ [])
    × (l.top_hash ≡ some 9)
    × (l.num ≡ 2)
load_bin-store_bin_example =
    load_bin-store_bin tree bin bin-Lawful two_accounts
      ((tt, ((λ e. absurd (omega (arith, e)), tt), tt)), omega arith)
