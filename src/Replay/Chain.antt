-- ===== src/Replay/Chain.antt =====
-- The recorded blocks in a replayed node's answers (bootstrap-sandbox/src/replay.rs), and the
-- recording that left them (bootstrap-sandbox/src/record.rs).
use openmina_poc.Base.{
  ℕ, zero, suc, List, [], ◌∷◌, ◌++◌, map, none, some, Exec, done, panic, stuck, Option, Result, ok,
  err, ◌≡◌, refl, sym, subst, ◌∙◌,
}
use openmina_poc.Base.Map.{Key, Map, get}
use openmina_poc.Files.{Files, bytes_key}
use openmina_poc.Rpc.Wire.{QueryHeader, received_query}
use openmina_poc.Rpc.Event.{StreamId, stream}
use openmina_poc.Client.{behaviour, responds, ClientError, libp2p}
use openmina_poc.Ledger.{Mask}
use openmina_poc.Ledger.Bin.{Bin}
use openmina_poc.Mina.{Mina, Lawful, Peer}
use openmina_poc.Bootstrap.{Staging}
use openmina_poc.Record.{download_blocks, Downloads, turns}
use openmina_poc.Record.Disk.{Entered, Truthful, Listed}
use openmina_poc.Record.Download.{previous, Answers, Tabled, Recorded, download_blocks-Recorded}
use openmina_poc.Ledger.Sync.{Finishes}
use openmina_poc.Record.Beside.{Beside, download_blocks-Beside}
use openmina_poc.Replay.{
  get_transition_chain, Messages, Replay, Serving, chain_is, chain_blocks, answer, on_event, load,
  block_proof,
}
use openmina_poc.Replay.Load.{Loadable, load-Loadable}
use openmina_poc.Replay.Dispatch.{Distinct, on_event-find_method}

module _ (mina : Mina) {T D H A N V : Type 0} (staging : Staging mina T H) (m : Mask T D H A V)
    (bin : Bin T H A) (messages : Messages mina staging N V) (laws : Lawful mina)
    (block_at : mina.Hash → mina.Block) where
  -- The table has an entry for each hash.
  abbrev pub AllEntered : Map (List ℕ) ℕ → List mina.Hash → Type 0
  AllEntered table [] = Unit
  AllEntered table (h ∷ hashes) = Entered table (mina.to_string h) × AllEntered table hashes

  pub chain_blocks-block_at :
      (files : Files) (table : Map (List ℕ) ℕ) (hashes : List mina.Hash)
      → Truthful mina laws block_at files
      → Listed mina laws block_at table files
      → AllEntered table hashes
      → chain_blocks mina staging m bin messages files table hashes ≡ done (map block_at hashes)
  unfolding chain_blocks
  chain_blocks-block_at files table [] truthful listed entered = refl
  chain_blocks-block_at files table (h ∷ hashes) truthful listed ((height, entry), rest) =
      let (bytes, stored) = listed h height entry in
      rw (
        entry,
        stored,
        truthful height h bytes stored,
        chain_blocks-block_at files table hashes truthful listed rest,
      )

  chain_blocks-unknown :
      (files : Files) (table : Map (List ℕ) ℕ) (before after : List mina.Hash) (h : mina.Hash)
      → Truthful mina laws block_at files
      → Listed mina laws block_at table files
      → AllEntered table before
      → get (mina.to_string h) table ≡ none
      → chain_blocks mina staging m bin messages files table (before ++ (h ∷ after)) ≡ panic
  unfolding chain_blocks
  chain_blocks-unknown files table [] after h truthful listed entered missing = rw missing
  chain_blocks-unknown files table (k ∷ before) after h truthful listed entered missing =
      let ((height, entry), rest) = entered in
      let (bytes, stored) = listed k height entry in
      rw (
        entry,
        stored,
        truthful height k bytes stored,
        chain_blocks-unknown files table before after h truthful listed rest missing,
      )

  module _ {P : Type 0} ⦃peer_key : Key P⦄ where
    -- A query for the chain of hashes that the table has is answered by one response, to its peer,
    -- its stream and its identifier, which has the block of each hash in the order of the query.
    pub on_event-chain :
        (r : Replay mina staging N V) (s : Serving P) (peer : P) (stream_id : StreamId)
        (header : QueryHeader) (bytes out : List ℕ) (hashes : List mina.Hash)
        → Distinct mina staging m bin messages
        → messages.from_utf8 header.tag ≡ some (messages.name get_transition_chain)
        → header.version ≡ messages.version get_transition_chain
        → messages.read_hashes bytes ≡ some hashes
        → messages.encode header.id (chain_is (some (map block_at hashes))) ≡ some out
        → Truthful mina laws block_at r.files
        → Listed mina laws block_at r.table r.files
        → AllEntered r.table hashes
        → on_event mina staging m bin messages r s
            (behaviour peer (stream stream_id (received_query header bytes)))
          ≡ done (record s { calls = s.calls ++ responds peer stream_id header.id out ∷ [] })
    unfolding answer
    on_event-chain r s peer stream_id header bytes out hashes distinct named version read encoded
          truthful listed entered =
        on_event-find_method mina staging m bin messages r s peer stream_id header bytes
          get_transition_chain distinct named version
        ∙ rw (read, chain_blocks-block_at r.files r.table hashes truthful listed entered, encoded)

    -- A query for a chain with a hash that the table does not have aborts the node.
    pub on_event-unknown_hash :
        (r : Replay mina staging N V) (s : Serving P) (peer : P) (stream_id : StreamId)
        (header : QueryHeader) (bytes : List ℕ) (before after : List mina.Hash) (h : mina.Hash)
        → Distinct mina staging m bin messages
        → messages.from_utf8 header.tag ≡ some (messages.name get_transition_chain)
        → header.version ≡ messages.version get_transition_chain
        → messages.read_hashes bytes ≡ some (before ++ (h ∷ after))
        → Truthful mina laws block_at r.files
        → Listed mina laws block_at r.table r.files
        → AllEntered r.table before
        → get (mina.to_string h) r.table ≡ none
        → on_event mina staging m bin messages r s
            (behaviour peer (stream stream_id (received_query header bytes)))
          ≡ panic
    unfolding answer
    on_event-unknown_hash r s peer stream_id header bytes before after h distinct named version read
          truthful listed entered missing =
        on_event-find_method mina staging m bin messages r s peer stream_id header bytes
          get_transition_chain distinct named version
        ∙ rw (
          read,
          chain_blocks-unknown r.files r.table before after h truthful listed entered missing,
        )

  -- For each of the `n` blocks before a block, the answer to a query for it by the hash that names it
  -- is that block.
  abbrev pub Serves : ℕ → mina.Block → Replay mina staging N V → Type 0
  Serves zero block r = Unit
  Serves (suc n) block r =
      (chain_blocks mina staging m bin messages r.files r.table (previous mina block_at block ∷ [])
        ≡ done (block_at (previous mina block_at block) ∷ []))
      × Serves n (block_at (previous mina block_at block)) r

  Tabled-Serves :
      (r : Replay mina staging N V) (n : ℕ) (block : mina.Block)
      → Truthful mina laws block_at r.files
      → Listed mina laws block_at r.table r.files
      → Tabled mina block_at n block r.table
      → Serves n block r
  Tabled-Serves r zero block truthful listed tabled = tt
  Tabled-Serves r (suc n) block truthful listed tabled = (
    chain_blocks-block_at r.files r.table (previous mina block_at block ∷ []) truthful listed
        (tabled.0, tt),
    Tabled-Serves r n (block_at (previous mina block_at block)) truthful listed tabled.1,
  )

  -- What a peer of a node is told when it asks the node for blocks: the node's answer, or where it
  -- aborts, that the connection failed.
  abbrev pub reply_of : {R : Type 0} → Exec R → Result R ClientError
  reply_of (done r) = ok r
  reply_of panic = err libp2p
  reply_of stuck = err libp2p

  abbrev pub chain_reply : Exec (List mina.Block) → Result (Option (List mina.Block)) ClientError
  chain_reply (done blocks) = ok (some blocks)
  chain_reply panic = err libp2p
  chain_reply stuck = err libp2p

  -- The node as the peer of another recording.
  abbrev pub served_peer : Replay mina staging N V → Peer mina (Unit {0})
  served_peer r = record {
    transition_chain = λ w hashes.
        (w, chain_reply (chain_blocks mina staging m bin messages r.files r.table hashes));
    transition_chain_proof =
        λ w h. (w, reply_of (block_proof mina staging m bin messages r.files r.table h));
  }

  Serves-Answers :
      {W : Type 0} (peer : Peer mina W) (r : Replay mina staging N V) (n : ℕ) (block : mina.Block)
      → Answers mina block_at peer n block
      → Serves n block r
      → Answers mina block_at (served_peer r) n block
  Serves-Answers peer r zero block answers serves = tt
  Serves-Answers peer r (suc n) block answers serves = (
    λ w. (w, [], rw serves.0),
    answers.1,
    answers.2,
    Serves-Answers peer r n (block_at (previous mina block_at block)) answers.3 serves.1,
  )

  nothing-Recorded :
      {W : Type 0} (peer : Peer mina W) → Recorded mina block_at laws peer (λ path. none) []
  unfolding get
  nothing-Recorded peer =
      (refl, λ height h bytes e. absurd cc, λ h height e. absurd cc, λ h height e. absurd cc)

  -- Where the files are as a recording keeps them, those beside the blocks can be loaded, and the
  -- peer has the blocks: the download ends, a node loads from the files that it leaves, and answers a
  -- query for each of the blocks between the snarked one and the head, by the hash that names it,
  -- with that block; and a download that starts with no files and has that node as its peer ends
  -- with the same blocks.
  pub download_blocks-Serves :
      {W : Type 0} (peer : Peer mina W) (w : W) (files : Files) (table : Map (List ℕ) ℕ)
      (head : mina.Block) (head_height snarked_height height : ℕ) (names : List (List ℕ))
      → Recorded mina block_at laws peer files table
      → Loadable mina staging m bin messages height files names
      → Answers mina block_at peer (turns snarked_height head_height) head
      → (d : Downloads mina W) × (r : Replay mina staging N V) × (d' : Downloads mina (Unit {0}))
        × (download_blocks mina peer w files (head ∷ []) head_height snarked_height ≡ done d)
        × (load mina staging m bin messages height d.files names ≡ done r)
        × Serves (turns snarked_height head_height) head r
        × (download_blocks mina
              (served_peer r)
              tt
              (λ path. none)
              (head ∷ [])
              head_height
              snarked_height
            ≡ done d')
        × (d'.blocks ≡ d.blocks)
  download_blocks-Serves {W} peer w files table head head_height snarked_height height names
        recorded ready answers =
      let n = turns snarked_height head_height in
      let (d, downloaded, blocks, kept, tabled, stored) =
        download_blocks-Recorded mina block_at laws peer w files table head head_height
          snarked_height recorded answers in
      let beside = subst (Finishes (λ (x : Downloads mina W). Beside files x.files)) downloaded (
        download_blocks-Beside mina peer w files table (head ∷ []) head_height snarked_height
          recorded.0) in
      let (r, loaded, same_files, same_table) =
        load-Loadable mina staging m bin messages height files d.files names d.table laws ready
          beside stored in
      let serves =
        Tabled-Serves r n head (rw same_files kept.1) (rw (same_files, same_table) kept.2)
          (rw same_table tabled) in
      let (d', again, blocks', kept', tabled', stored') =
        download_blocks-Recorded mina block_at laws (served_peer r) tt (λ path. none) [] head
          head_height snarked_height (nothing-Recorded (served_peer r))
          (Serves-Answers peer r n head answers serves) in
      (d, r, d', downloaded, loaded, serves, again, blocks' ∙ sym blocks)
