-- ===== src/Rpc/Event.antt =====
-- The types that the layers of libp2p-rpc-behaviour hand to one another: `StreamId` and `Event` of
-- behaviour.rs, `StreamEvent` of stream.rs, and `Command` of handler.rs.
use openmina_poc.Base.{ℕ, ◌≡◌, ◌↔◌, Bool, true, false, List, arith, ltb, ◌==◌}
use openmina_poc.Base.Map.{Key}
use openmina_poc.Rpc.Wire.{Received}

pub data StreamId : Type 0 where
  incoming outgoing : ℕ → StreamId

abbrev pub stream_id_beq : StreamId → StreamId → Bool
stream_id_beq (StreamId.incoming a) (StreamId.incoming b) = a == b
stream_id_beq (StreamId.incoming a) (StreamId.outgoing b) = false
stream_id_beq (StreamId.outgoing a) (StreamId.incoming b) = false
stream_id_beq (StreamId.outgoing a) (StreamId.outgoing b) = a == b

-- The derived order: incoming streams first, then by number.
abbrev pub stream_id_before : StreamId → StreamId → Bool
stream_id_before (StreamId.incoming a) (StreamId.incoming b) = ltb a b
stream_id_before (StreamId.incoming a) (StreamId.outgoing b) = true
stream_id_before (StreamId.outgoing a) (StreamId.incoming b) = false
stream_id_before (StreamId.outgoing a) (StreamId.outgoing b) = ltb a b

pub stream_id_beq_iff : (a b : StreamId) → (stream_id_beq a b ≡ true) ↔ (a ≡ b)
stream_id_beq_iff a b = ground arith

pub stream_id_before_irrefl : (a : StreamId) → stream_id_before a a ≡ false
stream_id_before_irrefl a = ground arith

pub stream_id_before_trans :
    (a b c : StreamId)
    → stream_id_before a b ≡ true
    → stream_id_before b c ≡ true
    → stream_id_before a c ≡ true
stream_id_before_trans a b c p q = ground arith

pub stream_id_before_total :
    (a b : StreamId)
    → stream_id_beq a b ≡ false
    → stream_id_before a b ≡ false
    → stream_id_before b a ≡ true
stream_id_before_total a b p q = ground arith

instance abbrev pub stream_id_key : Key StreamId
stream_id_key = record {
  beq = stream_id_beq;
  before = stream_id_before;
  beq_iff = stream_id_beq_iff;
  before_irrefl = stream_id_before_irrefl;
  before_trans = stream_id_before_trans;
  before_total = stream_id_before_total;
}

pub data Event : Type 0 where
  connection_established connection_closed : Event
  stream : StreamId → Received → Event

pub data StreamEvent : Type 0 where
  request : ℕ → StreamEvent
  event : Event → StreamEvent

pub data Command : Type 0 where
  send : StreamId → List ℕ → Command
  open_stream : ℕ → Command
