-- ===== src/Rpc/Handler/Implicit.antt =====
-- The implicit opening of a stream by `Command::Send` in libp2p-rpc-behaviour/src/handler.rs.
use openmina_poc.Base.{
  ℕ, ◌≡◌, ◌≢◌, refl, List, [], ◌∷◌, false, true, some, done, arith, ◌==◌, none, ltb,
}
use native.Mathlib.Decide.{dec_lt}
use openmina_poc.Base.Map.{get, insert}
use openmina_poc.Rpc.Wire.{AsyncIo, Menu, Codec}
use openmina_poc.Rpc.Event.{StreamId, stream_id_key, send, open_stream}
use openmina_poc.Rpc.Stream.{
  Stream, requested, negotiated_with, new_outgoing, negotiated, add_bytes, poll_stream,
}
use openmina_poc.Rpc.Handler.{
  Handler, new_handler, Call, behaviour_event, connection_event, polled_by,
  fully_negotiated_outbound, run, add_stream, poll_streams,
}

module _ {S : Type 0} (io : AsyncIo S) (c : Codec) (fuel : ℕ) where
  -- A command opens stream `a`, then stream `b` is opened; both are requested, and the two
  -- substreams arrive in the order of the requests.
  abbrev pub two_streams : ℕ → ℕ → List ℕ → S → S → ℕ → List (Call S)
  two_streams a b bytes s₁ s₂ waker =
      behaviour_event (send (StreamId.outgoing a) bytes)
      ∷ polled_by waker
      ∷ behaviour_event (open_stream b)
      ∷ polled_by waker
      ∷ connection_event (fully_negotiated_outbound s₁)
      ∷ connection_event (fully_negotiated_outbound s₂)
      ∷ []

  -- In a new handler, for two different outgoing streams: the substream that arrives for the second
  -- goes to the first, in place of the one that the first has; the second stays requested, and its
  -- identifier is left in the queue.
  pub run-two_streams :
      (menu : Menu) (a b : ℕ) (bytes : List ℕ) (s₁ s₂ : S) (waker : ℕ)
      → a ≢ b
      → (h : Handler S) × (run io c fuel (new_handler menu) (two_streams a b bytes s₁ s₂ waker)
          ≡ done h)
        × (get (StreamId.outgoing a) h.streams
            ≡ some (record (add_bytes (new_outgoing c false) bytes) {
              opening_state = some (negotiated_with s₂);
            }))
        × (get (StreamId.outgoing b) h.streams
            ≡ some (record (new_outgoing c true) { opening_state = some requested }))
        × (h.last_outgoing_id ≡ b ∷ [])
  unfolding run add_stream new_handler new_outgoing negotiated add_bytes poll_stream poll_streams
      get insert
  run-two_streams menu a b bytes s₁ s₂ waker ne = elim (dec_lt a b) [
    | yes before ↦
        let f : (a == b) ≡ false = ground arith in
        let g : ltb b a ≡ false = ground arith in
        let h : (a == a) ≡ true = ground arith in
        let k : (b == b) ≡ true = ground arith in
        (
          record {
            menu = menu;
            streams = (StreamId.outgoing a, opened_a) ∷ (StreamId.outgoing b, opened_b) ∷ [];
            last_outgoing_id = b ∷ [];
            last_incoming_id = 0;
            failed = [];
            waker = none;
          },
          simp (f, g, h, k),
          simp (f, g, h, k),
          simp (f, g, h, k),
          refl,
        )
    | no after ↦
        let f : (a == b) ≡ false = ground arith in
        let f' : (b == a) ≡ false = ground arith in
        let g : ltb b a ≡ true = ground (arith, ne) in
        let g' : ltb a b ≡ false = ground arith in
        let h : (a == a) ≡ true = ground arith in
        let k : (b == b) ≡ true = ground arith in
        (
          record {
            menu = menu;
            streams = (StreamId.outgoing b, opened_b) ∷ (StreamId.outgoing a, opened_a) ∷ [];
            last_outgoing_id = b ∷ [];
            last_incoming_id = 0;
            failed = [];
            waker = none;
          },
          simp (f, f', g, g', h, k),
          simp (f, f', g, g', h, k),
          simp (f, f', g, g', h, k),
          refl,
        )
  ]
    where
      opened_a : Stream S
      opened_a = record (add_bytes (new_outgoing c false) bytes) {
        opening_state = some (negotiated_with s₂);
      }

      opened_b : Stream S
      opened_b = record (new_outgoing c true) { opening_state = some requested }
