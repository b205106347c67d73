-- ===== src/Replay/Tests.antt =====
-- The theorems on replayed nodes (bootstrap-sandbox/src/replay.rs) at concrete inputs: methods that
-- are named by numbers, and the numbered blocks of the recordings.
use openmina_poc.Base.{
  ℕ, zero, suc, ◌≡◌, refl, sym, ap, ◌∙◌, List, [], ◌∷◌, Option, none, some, done, panic, ◌==◌,
  and_true, bytes_eq, bytes_eq→≡,
}
use openmina_poc.Base.Map.{get, insert, nat_key, Map}
use openmina_poc.Files.{Files, create, bytes_key, create_self, path_eq, decimal, digits}
use openmina_poc.Rpc.Wire.{QueryHeader, received_query}
use openmina_poc.Rpc.Event.{outgoing, connection_established, stream}
use openmina_poc.Client.{SwarmEvent, behaviour, responds, libp2p, BehaviourCall}
use openmina_poc.Ledger.Tests.{tree}
use openmina_poc.Bootstrap.{block_path, file_at, ledger_at, table_path, best_tip_name, staged_name}
use openmina_poc.Ledger.Bin.{load_bin, create_accounts}
use openmina_poc.Replay.Load.{Loadable}
use openmina_poc.Record.{ancestry_name, download_blocks, turns, Downloads}
use openmina_poc.Record.Disk.{Truthful, Listed, create-block-Truthful, insert-Listed}
use openmina_poc.Record.Download.{Recorded}
use openmina_poc.Record.Example.{
  numbered, numbered-Lawful, chain_peer, staging, bin, tip, no_files, block_at, nothing-Recorded,
  answering,
}
use openmina_poc.Replay.{
  Method, get_best_tip, get_ancestry, answer_sync_ledger_query, get_staged_ledger_aux,
  get_transition_chain, get_transition_chain_proof, Messages, Replay, Serving, on_event, serve,
  load, load_ledgers, chain_is, answer, find_method, on_query,
}
use openmina_poc.Replay.Dispatch.{
  recorded_chain, blocks_cons, blocks_nil, Distinct, Follows, on_event-answers, serve-Follows,
}
use openmina_poc.Replay.Chain.{Serves, served_peer, on_event-unknown_hash, download_blocks-Serves}
use openmina_poc.Replay.Proofs.{AbortOnProofs, download_blocks-AbortOnProofs}

abbrev number : Method → ℕ
number get_best_tip = 0
number get_ancestry = 1
number answer_sync_ledger_query = 2
number get_staged_ledger_aux = 3
number get_transition_chain = 4
number get_transition_chain_proof = 5

abbrev of_number : ℕ → Method
of_number zero = get_best_tip
of_number (suc zero) = get_ancestry
of_number (suc (suc zero)) = answer_sync_ledger_query
of_number (suc (suc (suc zero))) = get_staged_ledger_aux
of_number (suc (suc (suc (suc zero)))) = get_transition_chain
of_number (suc (suc (suc (suc (suc n))))) = get_transition_chain_proof

of_number-number : (a : Method) → of_number (number a) ≡ a
of_number-number get_best_tip = refl
of_number-number get_ancestry = refl
of_number-number answer_sync_ledger_query = refl
of_number-number get_staged_ledger_aux = refl
of_number-number get_transition_chain = refl
of_number-number get_transition_chain_proof = refl

abbrev head_of : List ℕ → Option ℕ
head_of [] = none
head_of (b ∷ bs) = some b

abbrev messages : Messages numbered staging (Unit {0}) ℕ
messages = record {
  name = λ a. number a ∷ [];
  version = λ a. 1;
  from_utf8 = λ tag. some tag;
  read_ancestry = λ bytes. some (some tt);
  read_ledger_query = λ bytes. none;
  read_hashes = λ bytes. some bytes;
  read_hash = head_of;
  encode = λ id response. some (id ∷ []);
}

distinct : Distinct numbered staging tree bin messages
distinct a b e =
    let (names, versions) = and_true (bytes_eq (number a ∷ []) (number b ∷ [])) (1 == 1) e in
    let same : number a ∷ [] ≡ number b ∷ [] = bytes_eq→≡ (number a ∷ []) (number b ∷ []) names in
    let numbers : number a ≡ number b = cc in
    sym (of_number-number a) ∙ ap of_number numbers ∙ of_number-number b

-- A node that has recorded the block 4 alone.
abbrev four : List ℕ
four = numbered.to_string 4

abbrev kept_files : Files
kept_files = create (block_path 4 four) (numbered.write_block 4) no_files

abbrev kept_table : Map (List ℕ) ℕ
kept_table = insert four 4 []

abbrev replayed : Replay numbered staging (Unit {0}) ℕ
replayed = record {
  best_tip = some tip;
  ancestry = some tt;
  staged_ledger_aux = none;
  ledgers = [];
  table = kept_table;
  files = kept_files;
}

kept-Truthful : Truthful numbered numbered-Lawful block_at kept_files
kept-Truthful =
    create-block-Truthful numbered numbered-Lawful block_at 4 4 no_files
      (λ height h bytes e. absurd cc)

nothing-Listed : Listed numbered numbered-Lawful block_at [] kept_files
unfolding get
nothing-Listed h height e = absurd cc

kept-Listed : Listed numbered numbered-Lawful block_at kept_table kept_files
kept-Listed =
    insert-Listed numbered numbered-Lawful block_at 4 4 [] kept_files nothing-Listed
      (4 ∷ [], create_self (block_path 4 four) (4 ∷ []) no_files)

abbrev idle : Serving ℕ
idle = record { peers = []; calls = [] }

abbrev header : ℕ → QueryHeader
header method = record { tag = method ∷ []; version = 1; id = 7 }

on_event-answers_example :
    on_event numbered staging tree bin messages replayed idle
      (behaviour 3 (stream (outgoing 0) (received_query (header 4) (4 ∷ []))))
    ≡ done (record { peers = []; calls = responds 3 (outgoing 0) 7 (7 ∷ []) ∷ [] })
unfolding get insert bytes_eq
on_event-answers_example =
    on_event-answers numbered staging tree bin messages replayed idle 3 (outgoing 0) (header 4)
      (4 ∷ []) (7 ∷ []) get_transition_chain (chain_is (some (4 ∷ []))) distinct refl refl
      (recorded_chain (4 ∷ []) (4 ∷ []) (4 ∷ []) refl (
        blocks_cons 4 [] 4 (4 ∷ []) 4 [] refl (create_self (block_path 4 four) (4 ∷ []) no_files)
          refl blocks_nil))
      refl

on_event-unknown_hash_example :
    on_event numbered staging tree bin messages replayed idle
      (behaviour 3 (stream (outgoing 0) (received_query (header 4) (4 ∷ 9 ∷ []))))
    ≡ panic
unfolding get insert bytes_eq
on_event-unknown_hash_example =
    on_event-unknown_hash numbered staging tree bin messages numbered-Lawful block_at replayed idle
      3 (outgoing 0) (header 4) (4 ∷ 9 ∷ []) (4 ∷ []) [] 9 distinct refl refl refl kept-Truthful
      kept-Listed ((4, refl), tt) refl

abbrev events : List (SwarmEvent ℕ)
events =
    behaviour 3 connection_established
    ∷ behaviour 3 (stream (outgoing 0) (received_query (header 0) []))
    ∷ []

abbrev answered : Serving ℕ
answered = record { peers = (3, tt) ∷ []; calls = responds 3 (outgoing 0) 7 (7 ∷ []) ∷ [] }

serve-Follows_example :
    (calls : List (BehaviourCall ℕ)) × (responds 3 (outgoing 0) 7 (7 ∷ []) ∷ [] ≡ calls)
    × Follows numbered staging tree bin messages events calls
unfolding serve on_event on_query find_method answer insert bytes_eq
serve-Follows_example =
    serve-Follows numbered staging tree bin messages replayed idle answered events refl

-- Files that a recording at height 5 keeps beside its blocks, with a ledger under the name 1.
abbrev beside_files : Files
beside_files = create (file_at 5 best_tip_name) (numbered.write_best_tip (some tip)) (
    create (file_at 5 ancestry_name) []
      (create (file_at 5 staged_name) [] (create (ledger_at 5 (1 ∷ [])) (1 ∷ 9 ∷ 7 ∷ []) no_files)))

beside-Recorded : Recorded numbered block_at numbered-Lawful chain_peer beside_files []
unfolding get file_at ledger_at block_path table_path decimal digits create path_eq bytes_eq
beside-Recorded =
    (refl, λ height h bytes e. absurd cc, λ h height e. absurd cc, λ h height e. absurd cc)

beside-Loadable : Loadable numbered staging tree bin messages 5 beside_files ((1 ∷ []) ∷ [])
unfolding load_ledgers load_bin create_accounts get insert file_at ledger_at block_path table_path
    decimal digits create path_eq bytes_eq
beside-Loadable = record {
  best_tip = some tip;
  ancestry = some tt;
  staged_ledger_aux = none;
  ledgers = (1 ∷ [], record { inner = 7 ∷ []; top_hash = some 9; num = 1 }) ∷ [];
  has_best_tip = refl;
  has_ancestry = refl;
  has_aux = refl;
  has_ledgers = refl;
}

download_blocks-Serves_example :
    (d : Downloads numbered (Unit {0})) × (r : Replay numbered staging (Unit {0}) ℕ)
    × (d' : Downloads numbered (Unit {0})) × (download_blocks numbered chain_peer tt beside_files
          (5 ∷ [])
          5
          2
        ≡ done d)
    × (load numbered staging tree bin messages 5 d.files ((1 ∷ []) ∷ []) ≡ done r)
    × Serves numbered staging tree bin messages numbered-Lawful block_at 2 5 r
    × (download_blocks numbered
          (served_peer numbered staging tree bin messages numbered-Lawful block_at r)
          tt
          (λ path. none)
          (5 ∷ [])
          5
          2
        ≡ done d')
    × (d'.blocks ≡ d.blocks)
unfolding turns
download_blocks-Serves_example =
    download_blocks-Serves numbered staging tree bin messages numbered-Lawful block_at chain_peer tt
      beside_files [] 5 5 2 5 ((1 ∷ []) ∷ []) beside-Recorded beside-Loadable answering

download_blocks-AbortOnProofs_example :
    (d : Downloads numbered (Unit {0})) × (download_blocks numbered chain_peer tt no_files
        (5 ∷ [])
        5
        2
      ≡ done d)
    × AbortOnProofs numbered numbered-Lawful chain_peer
        (λ w h. (tt, libp2p, refl))
        staging
        tree
        bin
        messages
        block_at
        2
        5
        d
unfolding turns
download_blocks-AbortOnProofs_example =
    download_blocks-AbortOnProofs numbered numbered-Lawful chain_peer (λ w h. (tt, libp2p, refl))
      staging tree bin messages block_at tt no_files [] 5 5 2 nothing-Recorded (λ height h. refl)
      answering
