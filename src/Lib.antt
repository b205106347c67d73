-- ===== src/Lib.antt =====
-- A model of the openmina proof of concept, its RPC protocol and the tools that stand on it,
-- with the theorems that make it correct.
--
-- The parts of the program. libp2p-rpc-behaviour is the RPC protocol of a Mina node over
-- libp2p: a network behaviour hands commands to the handlers of its connections, a handler
-- keeps the streams of its connection, a stream is opened and then runs the state that frames,
-- sends and receives messages. bootstrap-sandbox uses it: its client makes one call at a time
-- over the behaviour, the snarked ledger is copied from a peer through the client and served to
-- peers, and the tests judge the statistics of a run. A recording takes the ledgers and the
-- blocks of a node into files; the bootstrap applies the blocks again from the files, and a
-- replayed node serves them to peers. The archive takes an explorer's blocks into files, and
-- gossipsub-sandbox records and replays gossip. hash-tool converts the hashes that the others
-- print.
--
-- Which file models what:
--   Base: lists, Booleans, powers and maps (a BTreeMap is an association list in key order),
--     and the outcomes of a run: a value, a panic, or fuel that ran out.
--   Rpc/Bytes, Rpc/Wire: the length in front of a message, and what comes from outside: the
--     byte stream (AsyncIo, with the laws that AsyncRead and AsyncWrite document) and the binprot
--     codec. Rpc/Reached: the states of that stream over several calls.
--   Rpc/Buffer: `Buffer` of libp2p-rpc-behaviour/src/state.rs. Buffer/Frames and Buffer/Cut are
--     on `try_cut`, Buffer/Fill and Buffer/Power on `poll_fill`.
--   Rpc/State: `Inner` of libp2p-rpc-behaviour/src/state.rs. State/Send, State/Recv,
--     State/Serve and State/Rounds are on `poll_send`, `poll_recv`, the messages served, and
--     `poll`; State/Moves is what they do to the bytes, State/Exchange is on two endpoints.
--   Rpc/Event, Rpc/Stream: libp2p-rpc-behaviour/src/stream.rs and the types between the layers.
--   Rpc/Handler: libp2p-rpc-behaviour/src/handler.rs, with histories of calls.
--   Rpc/Behaviour: libp2p-rpc-behaviour/src/behaviour.rs, with histories of operations;
--     Behaviour/Wakes is on its waker.
--   Client: bootstrap-sandbox/src/client.rs, over the events that the swarm gives.
--   Ledger: bootstrap-sandbox/src/snarked_ledger.rs, over a Merkle tree and peers from outside.
--   Ledger/Bin: `store_bin` and `load_bin` of that file.
--   Check: bootstrap-sandbox/src/check.rs, over what is fetched.
--   Files, Mina: the files of a recording by their paths, and what is used of
--     mina-p2p-messages.
--   Bootstrap: bootstrap-sandbox/src/bootstrap.rs, over mina_tree's staged ledger.
--   Record: bootstrap-sandbox/src/record.rs. Record/Disk is on what the files mean,
--     Record/Download, Record/Beside, Record/Layout and Record/Ends on the recording,
--     Record/Collect, Record/Reapply and Record/Again on the bootstrap from its files;
--     Record/Example is a chain of numbered blocks for the tests.
--   Replay: bootstrap-sandbox/src/replay.rs. Replay/Dispatch is on its events, Replay/Load,
--     Replay/Chain and Replay/Proofs on the recording that it serves.
--   Archive: `store` and the conversions of bootstrap-sandbox/src/archive_block.rs;
--     Archive/Store is on that loop. Archive/Genesis: its `run`, with Archive/Accounts and
--     Archive/Ends on the accounts.
--   Gossip: the two loops of gossipsub-sandbox/src/main.rs.
--   HashTool: hash-tool/src/main.rs, over hex and bs58.
--   Rpc/Example holds a stream, a codec and buffers for the tests; each Tests file applies
--     theorems.
--
-- State is passed explicitly: a method takes the record and returns it changed. Where the
-- source loops on input, the function recurses on fuel, and `stuck` says that it ran out:
-- `poll_recv` and `poll_fill` need a round for each byte received or still to come, `poll_send`
-- one for each byte to send, `poll` two rounds, the copy of the ledger one for each of its 33
-- levels, the bootstrap one for each block and one more, the replay of gossip one for each byte
-- of its file, the archive one for each height without a file; the theorems show that this is
-- enough, but that a write which takes nothing keeps `poll_send` turning for ever. Integers wrap as in a release build: 64-bit lengths and call identifiers, 32-bit
-- stream numbers, tree positions and block heights. Wakers are numbers, which a call returns when it wakes.
--
-- Not modelled: transport, which composes libp2p's transports; the tools under
-- hash-tool/src/bin; `main` of the sandboxes but for the loops named above; and the directories
-- and the logs of the recording. A file that is written is there, and what an aborted run has
-- written is not kept. A recording is that of a node whose calls return, with an answer or an
-- error: one that never answers keeps the client waiting for ever. libp2p itself, binprot, serde, reqwest, mina-p2p-messages and mina_tree
-- are arguments of the definitions that use them.
pub mod Base
pub mod Rpc
pub mod Client
pub mod Ledger
pub mod Check
pub mod Files
pub mod Mina
pub mod Bootstrap
pub mod Record
pub mod Replay
pub mod Gossip
pub mod Archive
pub mod HashTool
