-- ===== src/Replay/Dispatch.antt =====
-- The events of a replayed node (bootstrap-sandbox/src/replay.rs) and the responses to them.
use openmina_poc.Base.{
  ℕ, List, [], ◌∷◌, ◌++◌, true, Option, none, some, done, ◌>>=◌, ==_iff, bytes_eq_refl, ◌≡◌, refl,
  sym, ap, ◌∙◌, append_assoc, append-nil, Bool-cases, inl, inr, ◌⊎◌,
}
use openmina_poc.Base.Map.{Key, Map, get}
use openmina_poc.Files.{Files, bytes_key}
use openmina_poc.Record.{proof_path}
use openmina_poc.Rpc.Wire.{
  QueryHeader, Received, received_query, received_response, menu_listed, handshake_done,
}
use openmina_poc.Rpc.Event.{StreamId, connection_established, connection_closed, stream}
use openmina_poc.Client.{SwarmEvent, behaviour, other_event, BehaviourCall, responds}
use openmina_poc.Ledger.{Mask, SnarkedLedger, Query, Answer, unwrap, serve_query}
use openmina_poc.Ledger.Bin.{Bin}
use openmina_poc.Mina.{Mina}
use openmina_poc.Bootstrap.{Staging, block_path}
use openmina_poc.Record.Layout.{>>=-done, done-injective}
use openmina_poc.Replay.{
  Method, methods, get_best_tip, get_ancestry, answer_sync_ledger_query, get_staged_ledger_aux,
  get_transition_chain, get_transition_chain_proof, Messages, Replay, Serving, is_method,
  find_method, answer, respond, on_method, on_query, on_received, on_event, serve, Response,
  best_tip_is, ancestry_is, ledger_answer_is, staged_aux_is, chain_is, proof_is, chain_blocks,
  block_proof,
}

module _ (mina : Mina) {T D H A N V : Type 0} (staging : Staging mina T H) (m : Mask T D H A V)
    (bin : Bin T H A) (messages : Messages mina staging N V) where
  -- No two methods have the same name and version.
  abbrev pub Distinct : Type 0
  Distinct =
      (a b : Method)
      → is_method mina staging m bin messages (messages.name a) (messages.version a) b ≡ true
      → a ≡ b

  abbrev pub Among : Method → List Method → Type 0
  Among a [] = ⊥
  Among a (b ∷ rest) = (a ≡ b) ⊎ Among a rest

  is_method_self :
      (a : Method)
      → is_method mina staging m bin messages (messages.name a) (messages.version a) a ≡ true
  is_method_self a =
      rw
        (bytes_eq_refl (messages.name a), (==_iff (messages.version a) (messages.version a)).1 refl)

  find_method-Among :
      (a : Method) (all : List Method)
      → Distinct
      → Among a all
      → find_method mina staging m bin messages (messages.name a) (messages.version a) all ≡ some a
  unfolding find_method
  find_method-Among a [] distinct h = absurd h
  find_method-Among a (b ∷ rest) distinct h =
      elim (Bool-cases
        (is_method mina staging m bin messages (messages.name a) (messages.version a) b)) [
          | inl found ↦ rw found (ap some (sym (distinct a b found)))
          | inr other ↦ elim h [
            | inl same ↦
                let self : is_method mina staging m bin messages (messages.name a)
                      (messages.version a) b
                    ≡ true =
                  ap
                    (λ (c : Method).
                      is_method mina staging m bin messages (messages.name a) (messages.version a)
                        c)
                    (sym same)
                  ∙ is_method_self a in
                absurd cc
            | inr later ↦ rw other (find_method-Among a rest distinct later)
          ]
        ]

  methods-all : (a : Method) → Among a methods
  methods-all get_best_tip = inl refl
  methods-all get_ancestry = inr (inl refl)
  methods-all answer_sync_ledger_query = inr (inr (inl refl))
  methods-all get_staged_ledger_aux = inr (inr (inr (inl refl)))
  methods-all get_transition_chain = inr (inr (inr (inr (inl refl))))
  methods-all get_transition_chain_proof = inr (inr (inr (inr (inr (inl refl)))))

  -- The recorded blocks of the hashes: each has an entry in the table, and the file under the entry's
  -- height reads as the block.
  pub data AreBlocks (files : Files) (table : Map (List ℕ) ℕ)
      : List mina.Hash → List mina.Block → Type 0 where
    blocks_nil : AreBlocks files table [] []
    blocks_cons :
        (h : mina.Hash) (hashes : List mina.Hash) (height : ℕ) (contents : List ℕ)
        (block : mina.Block) (blocks : List mina.Block)
        → get (mina.to_string h) table ≡ some height
        → files (block_path height (mina.to_string h)) ≡ some contents
        → mina.read_block contents ≡ some block
        → AreBlocks files table hashes blocks
        → AreBlocks files table (h ∷ hashes) (block ∷ blocks)

  -- What a recording has to answer to a query of a method.
  pub data IsAnswer (r : Replay mina staging N V)
      : Method → List ℕ → Response mina staging N V → Type 0 where
    recorded_best_tip : (bytes : List ℕ) → IsAnswer r get_best_tip bytes (best_tip_is r.best_tip)
    recorded_ancestry : (bytes : List ℕ) → IsAnswer r get_ancestry bytes (ancestry_is r.ancestry)
    recorded_aux :
        (bytes : List ℕ)
        → IsAnswer r get_staged_ledger_aux bytes (staged_aux_is r.staged_ledger_aux)
    recorded_ledger :
        (bytes name : List ℕ) (hash : H) (query : Query) (ledger : SnarkedLedger T H)
        (reply : Answer H V)
        → messages.read_ledger_query bytes ≡ some (hash, query)
        → staging.ledger_hash_value hash ≡ some name
        → get name r.ledgers ≡ some ledger
        → serve_query m ledger query ≡ done reply
        → IsAnswer r answer_sync_ledger_query bytes (ledger_answer_is reply)
    recorded_chain :
        (bytes : List ℕ) (hashes : List mina.Hash) (blocks : List mina.Block)
        → messages.read_hashes bytes ≡ some hashes
        → AreBlocks r.files r.table hashes blocks
        → IsAnswer r get_transition_chain bytes (chain_is (some blocks))
    recorded_proof :
        (bytes contents : List ℕ) (h : mina.Hash) (height : ℕ) (proof : Option mina.Proof)
        → messages.read_hash bytes ≡ some h
        → get (mina.to_string h) r.table ≡ some height
        → r.files (proof_path height (mina.to_string h)) ≡ some contents
        → mina.read_proof contents ≡ some proof
        → IsAnswer r get_transition_chain_proof bytes (proof_is proof)
    no_entry :
        (bytes : List ℕ) (h : mina.Hash)
        → messages.read_hash bytes ≡ some h
        → get (mina.to_string h) r.table ≡ none
        → IsAnswer r get_transition_chain_proof bytes (proof_is none)

  chain_blocks-AreBlocks :
      (files : Files) (table : Map (List ℕ) ℕ) (hashes : List mina.Hash) (blocks : List mina.Block)
      → AreBlocks files table hashes blocks
      → chain_blocks mina staging m bin messages files table hashes ≡ done blocks
  unfolding chain_blocks
  chain_blocks-AreBlocks files table _ _ blocks_nil = refl
  chain_blocks-AreBlocks files table _ _
        (blocks_cons h hashes height contents block blocks entry stored reads rest) =
      rw (entry, stored, reads, chain_blocks-AreBlocks files table hashes blocks rest)

  answer-IsAnswer :
      (r : Replay mina staging N V) (method : Method) (bytes : List ℕ)
      (response : Response mina staging N V)
      → IsAnswer r method bytes response
      → answer mina staging m bin messages r method bytes ≡ done response
  unfolding answer block_proof
  answer-IsAnswer r _ _ _ (recorded_best_tip bytes) = refl
  answer-IsAnswer r _ _ _ (recorded_ancestry bytes) = refl
  answer-IsAnswer r _ _ _ (recorded_aux bytes) = refl
  answer-IsAnswer r _ _ _ (recorded_ledger bytes name hash query ledger reply e1 e2 e3 e4) =
      rw (e1, e2, e3, e4)
  answer-IsAnswer r _ _ _ (recorded_chain bytes hashes blocks e are) =
      rw (e, chain_blocks-AreBlocks r.files r.table hashes blocks are)
  answer-IsAnswer r _ _ _ (recorded_proof bytes contents h height proof e1 e2 e3 e4) =
      rw (e1, e2, e3, e4)
  answer-IsAnswer r _ _ _ (no_entry bytes h e1 e2) = rw (e1, e2)

  module _ {P : Type 0} ⦃peer_key : Key P⦄ where
    -- The method of a query is found by its name and version.
    pub on_event-find_method :
        (r : Replay mina staging N V) (s : Serving P) (peer : P) (stream_id : StreamId)
        (header : QueryHeader) (bytes : List ℕ) (method : Method)
        → Distinct
        → messages.from_utf8 header.tag ≡ some (messages.name method)
        → header.version ≡ messages.version method
        → on_event mina staging m bin messages r s
            (behaviour peer (stream stream_id (received_query header bytes)))
          ≡ (answer mina staging m bin messages r method bytes >>= λ response.
              respond mina staging m bin messages s peer stream_id header.id response)
    unfolding on_event on_query
    on_event-find_method r s peer stream_id header bytes method distinct named version =
        rw (named, version, find_method-Among method methods distinct (methods-all method))

    -- Where no two methods have the same name and version, and the recording has the answer to a
    -- query of any of the six methods, one response is sent for it, with that answer encoded, to the
    -- query's peer, on its stream and under its identifier: the best tip, the ancestry and the staged
    -- parts that were loaded, the answer of the ledger with the name of the query's hash, the recorded
    -- block of each hash in their order, the recorded proof, or none for a block that is not in the
    -- table.
    pub on_event-answers :
        (r : Replay mina staging N V) (s : Serving P) (peer : P) (stream_id : StreamId)
        (header : QueryHeader) (bytes out : List ℕ) (method : Method)
        (response : Response mina staging N V)
        → Distinct
        → messages.from_utf8 header.tag ≡ some (messages.name method)
        → header.version ≡ messages.version method
        → IsAnswer r method bytes response
        → messages.encode header.id response ≡ some out
        → on_event mina staging m bin messages r s
            (behaviour peer (stream stream_id (received_query header bytes)))
          ≡ done (record s { calls = s.calls ++ responds peer stream_id header.id out ∷ [] })
    on_event-answers r s peer stream_id header bytes out method response distinct named version
          given encoded =
        on_event-find_method r s peer stream_id header bytes method distinct named version
        ∙ rw (answer-IsAnswer r method bytes response given, encoded)

    -- What the responses to events are: one at most for each query, to its peer, stream and
    -- identifier, and in the order of the queries.
    pub data Follows : List (SwarmEvent P) → List (BehaviourCall P) → Type 0 where
      follows_nil : Follows [] []
      follows_skip :
          (event : SwarmEvent P) (events : List (SwarmEvent P)) (calls : List (BehaviourCall P))
          → Follows events calls
          → Follows (event ∷ events) calls
      follows_reply :
          (peer : P) (stream_id : StreamId) (header : QueryHeader) (bytes out : List ℕ)
          (events : List (SwarmEvent P)) (calls : List (BehaviourCall P))
          → Follows events calls
          → Follows
              (behaviour peer (stream stream_id (received_query header bytes)) ∷ events)
              (responds peer stream_id header.id out ∷ calls)

    -- What one event adds to the calls.
    abbrev Adds : SwarmEvent P → Serving P → Serving P → Type 0
    Adds event s s' =
        (calls : List (BehaviourCall P)) × (s'.calls ≡ s.calls ++ calls)
        × ((events : List (SwarmEvent P)) (later : List (BehaviourCall P))
            → Follows events later
            → Follows (event ∷ events) (calls ++ later))

    nothing-Adds : (event : SwarmEvent P) (s s' : Serving P) → s'.calls ≡ s.calls → Adds event s s'
    nothing-Adds event s s' same =
        ([], same ∙ sym (append-nil s.calls), λ events later h. follows_skip event events later h)

    on_method-Adds :
        (r : Replay mina staging N V) (s s' : Serving P) (peer : P) (stream_id : StreamId)
        (header : QueryHeader) (bytes : List ℕ) (method : Option Method)
        → on_method mina staging m bin messages r s peer stream_id header.id bytes method ≡ done s'
        → Adds (behaviour peer (stream stream_id (received_query header bytes))) s s'
    on_method-Adds r s s' peer stream_id header bytes none e =
        nothing-Adds _ s s' (ap (λ (t : Serving P). t.calls) (sym (done-injective s s' e)))
    on_method-Adds r s s' peer stream_id header bytes (some method) e =
        let (response, answered, e1) =
          >>=-done (answer mina staging m bin messages r method bytes) _ _ e in
        let (out, encoded, e2) = >>=-done (unwrap (messages.encode header.id response)) _ _ e1 in
        (
          responds peer stream_id header.id out ∷ [],
          ap (λ (t : Serving P). t.calls) (sym (done-injective _ s' e2)),
          λ events later h. follows_reply peer stream_id header bytes out events later h,
        )

    on_received-Adds :
        (r : Replay mina staging N V) (s s' : Serving P) (peer : P) (stream_id : StreamId)
        (received : Received)
        → on_received mina staging m bin messages r s peer stream_id received ≡ done s'
        → Adds (behaviour peer (stream stream_id received)) s s'
    unfolding on_query
    on_received-Adds r s s' peer stream_id handshake_done e =
        nothing-Adds _ s s' (ap (λ (t : Serving P). t.calls) (sym (done-injective s s' e)))
    on_received-Adds r s s' peer stream_id (menu_listed menu) e =
        nothing-Adds _ s s' (ap (λ (t : Serving P). t.calls) (sym (done-injective s s' e)))
    on_received-Adds r s s' peer stream_id (received_query header bytes) e =
        let (tag, named, e1) = >>=-done (unwrap (messages.from_utf8 header.tag)) _ _ e in
        on_method-Adds r s s' peer stream_id header bytes _ e1
    on_received-Adds r s s' peer stream_id (received_response id bytes) e =
        nothing-Adds _ s s' (ap (λ (t : Serving P). t.calls) (sym (done-injective s s' e)))

    on_event-Adds :
        (r : Replay mina staging N V) (s s' : Serving P) (event : SwarmEvent P)
        → on_event mina staging m bin messages r s event ≡ done s'
        → Adds event s s'
    unfolding on_event
    on_event-Adds r s s' (behaviour peer connection_established) e =
        nothing-Adds _ s s' (ap (λ (t : Serving P). t.calls) (sym (done-injective _ s' e)))
    on_event-Adds r s s' (behaviour peer connection_closed) e =
        nothing-Adds _ s s' (ap (λ (t : Serving P). t.calls) (sym (done-injective _ s' e)))
    on_event-Adds r s s' (behaviour peer (stream stream_id received)) e =
        on_received-Adds r s s' peer stream_id received e
    on_event-Adds r s s' other_event e =
        nothing-Adds _ s s' (ap (λ (t : Serving P). t.calls) (sym (done-injective s s' e)))

    -- Over any events, as long as the node has not aborted, what it has sent are responses alone: one
    -- at most for each query, in the order of the queries, each to its query's peer, stream and
    -- identifier.
    pub serve-Follows :
        (r : Replay mina staging N V) (s s' : Serving P) (events : List (SwarmEvent P))
        → serve mina staging m bin messages r s events ≡ done s'
        → (calls : List (BehaviourCall P)) × (s'.calls ≡ s.calls ++ calls) × Follows events calls
    unfolding serve
    serve-Follows r s s' [] e = (
      [],
      ap (λ (t : Serving P). t.calls) (sym (done-injective s s' e)) ∙ sym (append-nil s.calls),
      follows_nil,
    )
    serve-Follows r s s' (event ∷ events) e =
        let (s1, stepped, e1) = >>=-done (on_event mina staging m bin messages r s event) _ _ e in
        let (calls, added, follow) = on_event-Adds r s s1 event stepped in
        let (later, rest, follows) = serve-Follows r s1 s' events e1 in
        (
          calls ++ later,
          rest
              ∙ ap (λ (l : List (BehaviourCall P)). l ++ later) added
              ∙ append_assoc s.calls calls later,
          follow events later follows,
        )
