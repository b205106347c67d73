-- ===== src/Mina.antt =====
-- What bootstrap-sandbox (src/record.rs, src/bootstrap.rs, src/replay.rs) uses of
-- mina-p2p-messages: blocks with their protocol states and hashes, and how they are written and read.
use openmina_poc.Base.{ℕ, List, Bool, true, Option, some, Result, ◌≡◌, ◌≢◌, ◌↔◌, All}
use openmina_poc.Base.Map.{Map}
use openmina_poc.Client.{ClientError}

-- A best tip: the head, and of its proof the block that the snarked ledger is of.
pub record BestTip (B : Type 0) : Type 0 where
  pub head : B
  pub root : B

pub record Mina : Type 1 where
  pub Block : Type 0
  pub State : Type 0
  pub Hash : Type 0
  pub Proof : Type 0
  pub protocol_state : Block → State
  pub previous_state_hash : State → Hash
  pub blockchain_length : State → ℕ
  pub state_hash : State → Hash
  pub hash_eq : Hash → Hash → Bool
  pub to_string : Hash → List ℕ
  pub write_best_tip : Option (BestTip Block) → List ℕ
  pub read_best_tip : List ℕ → Option (Option (BestTip Block))
  pub write_block : Block → List ℕ
  pub read_block : List ℕ → Option Block
  pub write_proof : Option Proof → List ℕ
  pub read_proof : List ℕ → Option (Option Proof)
  pub write_table : Map (List ℕ) ℕ → List ℕ
  pub read_table : List ℕ → Option (Map (List ℕ) ℕ)

-- The peer's answers to the two methods by which blocks are recorded: the client and the network
-- are a state `W`.
pub record Peer (mina : Mina) (W : Type 0) : Type 0 where
  pub transition_chain : W → List mina.Hash → W × Result (Option (List mina.Block)) ClientError
  pub transition_chain_proof : W → mina.Hash → W × Result (Option mina.Proof) ClientError

-- What is relied on of the codecs and of the hashes, which are printed in letters and digits.
pub record Lawful (mina : Mina) : Type 0 where
  pub read-write_best_tip :
      (tip : Option (BestTip mina.Block)) → mina.read_best_tip (mina.write_best_tip tip) ≡ some tip
  pub read-write_block : (b : mina.Block) → mina.read_block (mina.write_block b) ≡ some b
  pub read-write_table : (t : Map (List ℕ) ℕ) → mina.read_table (mina.write_table t) ≡ some t
  pub hash_eq_iff : (h k : mina.Hash) → (mina.hash_eq h k ≡ true) ↔ (h ≡ k)
  pub to_string-plain : (h : mina.Hash) → All (λ c. c ≢ b'_') (mina.to_string h)
  pub to_string_injective : (h k : mina.Hash) → mina.to_string h ≡ mina.to_string k → h ≡ k
