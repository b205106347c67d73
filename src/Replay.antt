-- ===== src/Replay.antt =====
-- The node that answers from a recording, bootstrap-sandbox/src/replay.rs. The events of the swarm
-- are a list, the codec and the names of the methods are arguments, and what the node calls of the
-- behaviour is recorded in order.
pub mod Load
pub mod Dispatch
pub mod Chain
pub mod Proofs
mod Tests
use openmina_poc.Base.{
  ℕ, List, [], ◌∷◌, ◌++◌, Bool, true, false, ◌&&◌, Option, none, some, Exec, done, panic, ◌>>=◌,
  ◌==◌, if◌then◌else◌, bytes_eq,
}
use openmina_poc.Base.Map.{Key, Map, get, insert, remove}
use openmina_poc.Files.{Files, bytes_key}
use openmina_poc.Rpc.Wire.{
  QueryHeader, Received, received_query, received_response, menu_listed, handshake_done,
}
use openmina_poc.Rpc.Event.{StreamId, Event, connection_established, connection_closed, stream}
use openmina_poc.Client.{SwarmEvent, behaviour, other_event, BehaviourCall, responds}
use openmina_poc.Ledger.{Mask, SnarkedLedger, Query, Answer, unwrap, serve_query}
use openmina_poc.Ledger.Bin.{Bin, load_bin}
use openmina_poc.Mina.{Mina, BestTip}
use openmina_poc.Bootstrap.{
  Staging, StagedAux, best_tip_name, staged_name, table_path, block_path, file_at, ledger_at,
  open_read,
}
use openmina_poc.Record.{ancestry_name, proof_path}

pub data Method : Type 0 where
  get_best_tip : Method
  get_ancestry : Method
  answer_sync_ledger_query : Method
  get_staged_ledger_aux : Method
  get_transition_chain : Method
  get_transition_chain_proof : Method

-- The methods in the order of the `match`.
abbrev pub methods : List Method
methods =
    get_best_tip ∷ get_ancestry ∷ answer_sync_ledger_query ∷ get_staged_ledger_aux
    ∷ get_transition_chain ∷ get_transition_chain_proof ∷ []

module _ (mina : Mina) {T H : Type 0} (staging : Staging mina T H) (N V : Type 0) where
  -- The payload of a response by its method; an ancestry is an `N`, an account of a message a `V`.
  pub data Response : Type 0 where
    best_tip_is : Option (BestTip mina.Block) → Response
    ancestry_is : Option N → Response
    ledger_answer_is : Answer H V → Response
    staged_aux_is : Option (StagedAux mina staging) → Response
    chain_is : Option (List mina.Block) → Response
    proof_is : Option mina.Proof → Response

  -- What mina-p2p-messages gives: the methods' names and versions, and the codec.
  pub record Messages : Type 0 where
    pub name : Method → List ℕ
    pub version : Method → ℕ
    pub from_utf8 : List ℕ → Option (List ℕ)
    pub read_ancestry : List ℕ → Option (Option N)
    pub read_ledger_query : List ℕ → Option (H × Query)
    pub read_hashes : List ℕ → Option (List mina.Hash)
    pub read_hash : List ℕ → Option mina.Hash
    pub encode : ℕ → Response → Option (List ℕ)

  -- What `run` has read before its loop.
  pub record Replay : Type 0 where
    pub best_tip : Option (BestTip mina.Block)
    pub ancestry : Option N
    pub staged_ledger_aux : Option (StagedAux mina staging)
    pub ledgers : Map (List ℕ) (SnarkedLedger T H)
    pub table : Map (List ℕ) ℕ
    pub files : Files

-- The peers that are connected, and what has been called of the behaviour.
pub record Serving (P : Type 0) : Type 0 where
  pub peers : Map P (Unit {0})
  pub calls : List (BehaviourCall P)

module _ (mina : Mina) {T D H A N V : Type 0} (staging : Staging mina T H) (m : Mask T D H A V)
    (bin : Bin T H A) (messages : Messages mina staging N V) where
  -- The ledgers by the names that `fs::read_dir` lists.
  unfoldable pub load_ledgers :
      ℕ
      → Files
      → List (List ℕ)
      → Map (List ℕ) (SnarkedLedger T H)
      → Exec (Map (List ℕ) (SnarkedLedger T H))
  load_ledgers height files [] ledgers = done ledgers
  load_ledgers height files (name ∷ names) ledgers = do
    bytes ← unwrap (files (ledger_at height name))
    loaded ← load_bin m bin bytes
    ledger ← unwrap loaded
    load_ledgers height files names (insert name ledger ledgers)

  unfoldable pub load : ℕ → Files → List (List ℕ) → Exec (Replay mina staging N V)
  load height files names = do
    best_tip ← open_read mina staging mina.read_best_tip (files (file_at height best_tip_name))
    ancestry ← open_read mina staging messages.read_ancestry (files (file_at height ancestry_name))
    staged_ledger_aux ← open_read mina staging staging.read_aux (files (file_at height staged_name))
    ledgers ← load_ledgers height files names []
    table ← open_read mina staging mina.read_table (files table_path)
    done (record {
      best_tip = best_tip;
      ancestry = ancestry;
      staged_ledger_aux = staged_ledger_aux;
      ledgers = ledgers;
      table = table;
      files = files;
    })

  abbrev pub is_method : List ℕ → ℕ → Method → Bool
  is_method tag version method =
      bytes_eq tag (messages.name method) && version == messages.version method

  -- The arm of the `match` on the tag and the version; `none` is the last one.
  unfoldable pub find_method : List ℕ → ℕ → List Method → Option Method
  find_method tag version [] = none
  find_method tag version (method ∷ rest) =
      if is_method tag version method then some method else find_method tag version rest

  -- The recorded block of each hash.
  unfoldable pub chain_blocks : Files → Map (List ℕ) ℕ → List mina.Hash → Exec (List mina.Block)
  chain_blocks files table [] = done []
  chain_blocks files table (hash ∷ hashes) = do
    height ← unwrap (get (mina.to_string hash) table)
    block ← open_read mina staging mina.read_block (files (block_path height (mina.to_string hash)))
    blocks ← chain_blocks files table hashes
    done (block ∷ blocks)

  abbrev pub proof_at : Files → List ℕ → Option ℕ → Exec (Option mina.Proof)
  proof_at files hash none = done none
  proof_at files hash (some height) =
      open_read mina staging mina.read_proof (files (proof_path height hash))

  -- The recorded proof of a block, which need not be in the table.
  unfoldable pub block_proof : Files → Map (List ℕ) ℕ → mina.Hash → Exec (Option mina.Proof)
  block_proof files table hash =
      proof_at files (mina.to_string hash) (get (mina.to_string hash) table)

  unfoldable pub answer :
      Replay mina staging N V → Method → List ℕ → Exec (Response mina staging N V)
  answer r get_best_tip bytes = done (best_tip_is r.best_tip)
  answer r get_ancestry bytes = done (ancestry_is r.ancestry)
  answer r answer_sync_ledger_query bytes = do
    (hash, query) ← unwrap (messages.read_ledger_query bytes)
    name ← unwrap (staging.ledger_hash_value hash)
    ledger ← unwrap (get name r.ledgers)
    response ← serve_query m ledger query
    done (ledger_answer_is response)
  answer r get_staged_ledger_aux bytes = done (staged_aux_is r.staged_ledger_aux)
  answer r get_transition_chain bytes = do
    hashes ← unwrap (messages.read_hashes bytes)
    blocks ← chain_blocks r.files r.table hashes
    done (chain_is (some blocks))
  answer r get_transition_chain_proof bytes = do
    hash ← unwrap (messages.read_hash bytes)
    proof ← block_proof r.files r.table hash
    done (proof_is proof)

  module _ {P : Type 0} ⦃peer_key : Key P⦄ where
    -- `respond(...).unwrap()`.
    abbrev pub respond : Serving P → P → StreamId → ℕ → Response mina staging N V → Exec (Serving P)
    respond s peer stream_id id response = do
      bytes ← unwrap (messages.encode id response)
      done (record s { calls = s.calls ++ responds peer stream_id id bytes ∷ [] })

    abbrev pub on_method :
        Replay mina staging N V
        → Serving P
        → P
        → StreamId
        → ℕ
        → List ℕ
        → Option Method
        → Exec (Serving P)
    on_method r s peer stream_id id bytes none = done s
    on_method r s peer stream_id id bytes (some method) = do
      response ← answer r method bytes
      respond s peer stream_id id response

    unfoldable pub on_query :
        Replay mina staging N V → Serving P → P → StreamId → QueryHeader → List ℕ → Exec (Serving P)
    on_query r s peer stream_id header bytes = do
      tag ← unwrap (messages.from_utf8 header.tag)
      on_method r s peer stream_id header.id bytes (find_method tag header.version methods)

    abbrev pub on_received :
        Replay mina staging N V → Serving P → P → StreamId → Received → Exec (Serving P)
    on_received r s peer stream_id handshake_done = done s
    on_received r s peer stream_id (menu_listed menu) = done s
    on_received r s peer stream_id (received_query header bytes) =
        on_query r s peer stream_id header bytes
    on_received r s peer stream_id (received_response id bytes) = done s

    unfoldable pub on_event : Replay mina staging N V → Serving P → SwarmEvent P → Exec (Serving P)
    on_event r s (behaviour peer connection_established) =
        done (record s { peers = insert peer tt s.peers })
    on_event r s (behaviour peer connection_closed) =
        done (record s { peers = remove peer s.peers })
    on_event r s (behaviour peer (stream stream_id received)) =
        on_received r s peer stream_id received
    on_event r s other_event = done s

    -- The loop of `run`, until the swarm ends.
    unfoldable pub serve :
        Replay mina staging N V → Serving P → List (SwarmEvent P) → Exec (Serving P)
    serve r s [] = done s
    serve r s (event ∷ events) = on_event r s event >>= λ s'. serve r s' events

    unfoldable pub replay : ℕ → Files → List (List ℕ) → List (SwarmEvent P) → Exec (Serving P)
    replay height files names events = do
      r ← load height files names
      serve r (record { peers = []; calls = [] }) events
