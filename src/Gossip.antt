-- ===== src/Gossip.antt =====
-- The recording and the replay of gossip, gossipsub-sandbox/src/main.rs: the two loops of `main`. The
-- events of the swarm are a list, the file is its bytes, and the publishing is libp2p's: it takes a
-- state `S` to the next one, or fails.
pub mod Replay
mod Tests
use openmina_poc.Base.{
  ℕ, zero, suc, ◌+◌, ◌-◌, ◌%◌, List, [], ◌∷◌, ◌++◌, Bool, Option, none, some, Exec, done, panic,
  stuck, ◌>>=◌, ◌==◌, ltb, if◌then◌else◌, length, take, drop,
}
use openmina_poc.Rpc.Bytes.{from_le_bytes, u64_mod}

pub data GossipEvent : Type 0 where
  message : List ℕ → GossipEvent
  other_event : GossipEvent

-- The test of `message.data[8]`, over the bytes from the ninth.
abbrev pub on_kind : List ℕ → List ℕ → List ℕ → Exec (List ℕ)
on_kind file bytes [] = panic
on_kind file bytes (kind ∷ rest) = done (if kind == 1 then file ++ bytes else file)

-- An event of `Command::Record`, over the file.
unfoldable pub record_event : List ℕ → GossipEvent → Exec (List ℕ)
record_event file (message bytes) = on_kind file bytes (drop 8 bytes)
record_event file other_event = done file

unfoldable pub record_all : List ℕ → List GossipEvent → Exec (List ℕ)
record_all file [] = done file
record_all file (event ∷ events) = record_event file event >>= λ file'. record_all file' events

module _ {S : Type 0} (publish : S → List ℕ → Option S) where
  -- `publish(...).unwrap()`, and the rest of the loop.
  abbrev pub on_publish : Option S → (S → Exec S) → Exec S
  on_publish none rest = panic
  on_publish (some s) rest = rest s

  -- A message of `size` bytes whose length has been read: the slice of the first eight aborts where
  -- there are none, and so does `read_exact` where the file ends.
  abbrev pub on_length : ℕ → List ℕ → List ℕ → S → (List ℕ → S → Exec S) → Exec S
  on_length size len file s rest =
      if ltb size 8
      then panic
      else if ltb (length file) (size - 8)
      then panic
      else on_publish (publish s (len ++ take (size - 8) file)) (rest (drop (size - 8) file))

  -- The loop of `Command::Replay` over what is left of the file. Each turn reads eight bytes, and
  -- takes a step of fuel.
  unfoldable pub replay_loop : ℕ → List ℕ → S → Exec S
  replay_loop zero file s = stuck
  replay_loop (suc fuel) file s =
      if ltb (length file) 8
      then done s
      else on_length ((8 + from_le_bytes (take 8 file)) % u64_mod) (take 8 file) (drop 8 file) s
          (replay_loop fuel)

  unfoldable pub replay : List ℕ → S → Exec S
  replay file s = replay_loop (suc (length file)) file s
