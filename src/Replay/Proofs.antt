-- ===== src/Replay/Proofs.antt =====
-- Proofs of blocks: a recording (bootstrap-sandbox/src/record.rs) from a peer that gives none, and the
-- answers of the node that replays it (bootstrap-sandbox/src/replay.rs).
use openmina_poc.Base.{
  ℕ, zero, suc, List, [], ◌∷◌, Option, none, some, done, panic, ◌>>=◌, Result, ok, err, ◌≡◌, sym,
  subst, ◌∙◌,
}
use openmina_poc.Base.Map.{Map}
use openmina_poc.Files.{Files, create, create_ne, bytes_key}
use openmina_poc.Client.{ClientError}
use openmina_poc.Ledger.{Mask, unwrap}
use openmina_poc.Ledger.Bin.{Bin}
use openmina_poc.Ledger.Sync.{Finishes, >>=-Finishes}
use openmina_poc.Mina.{Mina, Lawful, Peer}
use openmina_poc.Bootstrap.{Staging, block_path, table_path}
use openmina_poc.Record.{
  proof_path, height_before, Downloads, fetch, download_one, download_loop, download_blocks,
  on_chain, on_back, turns, read_table,
}
use openmina_poc.Record.Download.{previous, Answers, Tabled, Recorded, download_blocks-Recorded}
use openmina_poc.Record.Disk.{proof_path-apart}
use openmina_poc.Replay.{Messages, block_proof}

-- No block has a file of its proof.
abbrev pub Unproved : (mina : Mina) → Files → Type 0
Unproved mina files =
    (height : ℕ) (h : mina.Hash) → files (proof_path height (mina.to_string h)) ≡ none

module _ (mina : Mina) (laws : Lawful mina) {W : Type 0} (peer : Peer mina W)
    (refuses : (w : W) (h : mina.Hash)
      → (w' : W) × (e : ClientError) × (peer.transition_chain_proof w h ≡ (w', err e))) where
  create-block-Unproved :
      (height : ℕ) (h : mina.Hash) (bytes : List ℕ) (files : Files)
      → Unproved mina files
      → Unproved mina (create (block_path height (mina.to_string h)) bytes files)
  create-block-Unproved height h bytes files unproved height' h' =
      create_ne (block_path height (mina.to_string h)) (proof_path height' (mina.to_string h'))
        bytes files (λ e. proof_path-apart mina laws height' height (mina.to_string h') h (sym e))
      ∙ unproved height' h'

  create-table-Unproved :
      (bytes : List ℕ) (files : Files)
      → Unproved mina files
      → Unproved mina (create table_path bytes files)
  unfolding table_path proof_path
  create-table-Unproved bytes files unproved height h =
      create_ne _ _ bytes files (λ e. absurd cc) ∙ unproved height h

  abbrev FetchedUnproved : mina.Block × W × Files → Type 0
  FetchedUnproved r = Unproved mina r.2

  on_chain-Unproved :
      (height : ℕ) (hash : mina.Hash) (files : Files)
      (reply : W × Result (Option (List mina.Block)) ClientError)
      → Unproved mina files
      → Finishes FetchedUnproved (on_chain mina peer height hash files reply)
  on_chain-Unproved height hash files (w, err e) unproved = tt
  on_chain-Unproved height hash files (w, ok none) unproved = tt
  on_chain-Unproved height hash files (w, ok (some [])) unproved = tt
  on_chain-Unproved height hash files (w, ok (some (new ∷ more))) unproved =
      let (w', e, refused) = refuses w hash in
      rw refused (create-block-Unproved height hash (mina.write_block new) files unproved)

  read-Unproved :
      (w : W) (files : Files) (block : Option mina.Block)
      → Unproved mina files
      → Finishes FetchedUnproved (unwrap block >>= λ new. done (new, w, files))
  read-Unproved w files none unproved = tt
  read-Unproved w files (some block) unproved = unproved

  fetch-Unproved :
      (w : W) (files : Files) (height : ℕ) (hash : mina.Hash) (found : Option (List ℕ))
      → Unproved mina files
      → Finishes FetchedUnproved (fetch mina peer w files height hash found)
  fetch-Unproved w files height hash none unproved =
      on_chain-Unproved height hash files (peer.transition_chain w (hash ∷ [])) unproved
  fetch-Unproved w files height hash (some bytes) unproved =
      read-Unproved w files (mina.read_block bytes) unproved

  abbrev pub DownloadsUnproved : Downloads mina W → Type 0
  DownloadsUnproved d = Unproved mina d.files

  download_one-Unproved :
      (last : mina.Block) (d : Downloads mina W)
      → Unproved mina d.files
      → Finishes DownloadsUnproved (download_one mina peer last d)
  unfolding download_one
  download_one-Unproved last d unproved =
      let hash = mina.previous_state_hash (mina.protocol_state last) in
      let height = height_before (mina.blockchain_length (mina.protocol_state last)) in
      >>=-Finishes FetchedUnproved DownloadsUnproved
        (fetch mina peer d.client d.files height hash
          (d.files (block_path height (mina.to_string hash))))
        _
        (fetch-Unproved d.client d.files height hash
          (d.files (block_path height (mina.to_string hash))) unproved)
        (λ r kept. kept)

  on_back-Unproved :
      (blocks : List mina.Block) (d : Downloads mina W)
      → Unproved mina d.files
      → Finishes DownloadsUnproved
          (on_back mina peer blocks (λ last. download_one mina peer last d))
  on_back-Unproved [] d unproved = tt
  on_back-Unproved (last ∷ blocks) d unproved = download_one-Unproved last d unproved

  download_loop-Unproved :
      (n : ℕ) (d : Downloads mina W)
      → Unproved mina d.files
      → Finishes DownloadsUnproved (download_loop mina peer n d)
  unfolding download_loop
  download_loop-Unproved zero d unproved = unproved
  download_loop-Unproved (suc n) d unproved =
      >>=-Finishes DownloadsUnproved DownloadsUnproved
        (on_back mina peer d.blocks (λ last. download_one mina peer last d)) _
        (on_back-Unproved d.blocks d unproved) (λ d' kept. download_loop-Unproved n d' kept)

  module _ {T D H A N V : Type 0} (staging : Staging mina T H) (m : Mask T D H A V)
      (bin : Bin T H A) (messages : Messages mina staging N V) where
    -- Over the files and the table of a download, the node aborts on a query for the proof of each
    -- of the `n` blocks before a block.
    abbrev pub AbortOnProofs : (mina.Hash → mina.Block) → ℕ → mina.Block → Downloads mina W → Type 0
    AbortOnProofs block_at zero block d = Unit
    AbortOnProofs block_at (suc n) block d =
        (block_proof mina staging m bin messages d.files d.table (previous mina block_at block)
          ≡ panic)
        × AbortOnProofs block_at n (block_at (previous mina block_at block)) d

    Unproved-AbortOnProofs :
        (block_at : mina.Hash → mina.Block) (n : ℕ) (block : mina.Block) (d : Downloads mina W)
        → Unproved mina d.files
        → Tabled mina block_at n block d.table
        → AbortOnProofs block_at n block d
    unfolding block_proof
    Unproved-AbortOnProofs block_at zero block d unproved tabled = tt
    Unproved-AbortOnProofs block_at (suc n) block d unproved ((height, entry), tabled) = (
      rw (entry, unproved height (previous mina block_at block)),
      Unproved-AbortOnProofs block_at n (block_at (previous mina block_at block)) d unproved tabled,
    )

    download_blocks-Unproved :
        (w : W) (files : Files) (table : Map (List ℕ) ℕ) (blocks : List mina.Block)
        (head_height snarked_height : ℕ)
        → read_table mina peer (files table_path) ≡ done table
        → Unproved mina files
        → Finishes DownloadsUnproved
            (download_blocks mina peer w files blocks head_height snarked_height)
    unfolding download_blocks
    download_blocks-Unproved w files table blocks head_height snarked_height read unproved =
        let start : Downloads mina W = record {
          client = w;
          files = files;
          table = table;
          blocks = blocks;
        } in
        rw read (
          >>=-Finishes DownloadsUnproved DownloadsUnproved
            (download_loop mina peer (turns snarked_height head_height) start) _
            (download_loop-Unproved (turns snarked_height head_height) start unproved)
            (λ d kept. create-table-Unproved (mina.write_table d.table) d.files kept))

    -- Where the files are as a recording keeps them, without a proof, and the peer has the blocks
    -- but gives an error for every proof, the download ends, and a node over the files and the table
    -- that it leaves aborts on a query for the proof of any of the blocks between the snarked one and
    -- the head.
    pub download_blocks-AbortOnProofs :
        (block_at : mina.Hash → mina.Block) (w : W) (files : Files) (table : Map (List ℕ) ℕ)
        (head : mina.Block) (head_height snarked_height : ℕ)
        → Recorded mina block_at laws peer files table
        → Unproved mina files
        → Answers mina block_at peer (turns snarked_height head_height) head
        → (d : Downloads mina W) × (download_blocks mina peer w files
              (head ∷ [])
              head_height
              snarked_height
            ≡ done d)
          × AbortOnProofs block_at (turns snarked_height head_height) head d
    download_blocks-AbortOnProofs block_at w files table head head_height snarked_height recorded
          unproved answers =
        let n = turns snarked_height head_height in
        let (d, downloaded, blocks, kept, tabled, stored) =
          download_blocks-Recorded mina block_at laws peer w files table head head_height
            snarked_height recorded answers in
        let left = subst (Finishes DownloadsUnproved) downloaded (
          download_blocks-Unproved w files table (head ∷ []) head_height snarked_height recorded.0
            unproved) in
        (d, downloaded, Unproved-AbortOnProofs block_at n head d left tabled)
