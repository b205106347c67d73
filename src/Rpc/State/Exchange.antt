-- ===== src/Rpc/State/Exchange.antt =====
-- Two endpoints of libp2p-rpc-behaviour/src/state.rs: `add` on one, `poll_recv` on the other.
use openmina_poc.Base.{
  ℕ, zero, suc, ◌≡◌, refl, sym, ap, ◌∙◌, List, [], ◌∷◌, ◌++◌, map, length, Exec, done, ◌>>=◌, none,
  Poll, pending, ready, Result, append_assoc, append-nil,
}
use openmina_poc.Rpc.Bytes.{frame}
use openmina_poc.Rpc.Wire.{ErrorKind, AsyncIo, Codec, Received}
use openmina_poc.Rpc.Buffer.Cut.{contents}
use openmina_poc.Rpc.Buffer.Cut as Buffer_valid
use openmina_poc.Rpc.Buffer.Frames.{try_cut-frame}
use openmina_poc.Rpc.State.{Inner, add, outstanding, poll_recv}
use openmina_poc.Rpc.State.Recv.{outstanding-add}
use openmina_poc.Rpc.State.Serve.{Message, IsReadable, frames, reply_to, returned, handle-returned}

-- One message after another is framed and added.
unfoldable pub add_all : Inner → List Message → Inner
unfolding add
add_all i [] = i
add_all i (m ∷ ms) = add_all (add i (frame m.text)) ms

outstanding-add_all :
    (i : Inner) (ms : List Message)
    → outstanding (add_all i ms).command_queue ≡ outstanding i.command_queue ++ frames ms
unfolding add_all
outstanding-add_all i [] = sym (append-nil (outstanding i.command_queue))
outstanding-add_all i (m ∷ ms) =
    outstanding-add_all (add i (frame m.text)) ms
    ∙ ap (λ t. t ++ frames ms) (outstanding-add i (frame m.text))
    ∙ append_assoc (outstanding i.command_queue) (frame m.text) (frames ms)

-- The messages are readable, and they go to the caller.
abbrev pub AreReturned : Codec → Inner → List Message → Type 0
AreReturned c i [] = Unit
AreReturned c i (m ∷ ms) = IsReadable c m × (reply_to c i.menu m.header ≡ none) × AreReturned c i ms

module _ {S : Type 0} (io : AsyncIo S) (c : Codec) where
  abbrev ReceivedAll : Type 0
  ReceivedAll = Exec (Inner × S × List (Result Received ErrorKind))

  abbrev and_then :
      Inner × S × Poll (Result Received ErrorKind) → (Inner → S → ReceivedAll) → ReceivedAll
  and_then (i, s, pending) rest = done (i, s, [])
  and_then (i, s, ready r) rest = rest i s >>= λ (i', s', rs). done (i', s', r ∷ rs)

  -- As many calls of `poll_recv`, until one has to wait, and what they return.
  unfoldable pub recv_times : ℕ → ℕ → Inner → S → ReceivedAll
  recv_times fuel zero i s = done (i, s, [])
  recv_times fuel (suc n) i s =
      poll_recv io c fuel i s >>= λ polled. and_then polled (recv_times fuel n)

  recv_times-frames :
      (fuel : ℕ) (i : Inner) (s : S) (ms : List Message) (rest : List ℕ)
      → Buffer_valid.IsValid i.buffer
      → contents i.buffer ≡ frames ms ++ rest
      → AreReturned c i ms
      → (i' : Inner) × (recv_times (suc fuel) (length ms) i s
          ≡ done (i', s, map (λ m. returned c i.ask_menu m.header m.payload) ms))
        × (contents i'.buffer ≡ rest)
        × (i'.command_queue ≡ i.command_queue)
  unfolding recv_times poll_recv
  recv_times-frames fuel i s [] rest v e a = (i, refl, e, refl)
  recv_times-frames fuel i s (m ∷ ms) rest v e a =
      let (b', cut, behind, v') =
        try_cut-frame c i.buffer m.text (frames ms ++ rest) m.payload m.header v
          (e ∙ append_assoc (frame m.text) (frames ms) rest) a.0 in
      let i₁ : Inner = record i { buffer = b' } in
      let (i', run, left, queue) = recv_times-frames fuel i₁ s ms rest v' behind a.2 in
      (i', rw (cut, handle-returned c i₁ m.header m.payload a.1, run), left, queue)

-- One endpoint, with nothing to send, adds messages, and the other, whose buffer is valid, has
-- received all that the first had to send and perhaps more. Where the other's codec reads the
-- messages and they are for its caller, as many calls of `poll_recv` return exactly these messages,
-- in order, without touching the connection; what came behind them is left, and nothing is queued.
pub recv_times-add_all :
    {S : Type 0} (io : AsyncIo S) (c : Codec) (fuel : ℕ) (sender receiver : Inner) (s : S)
    (ms : List Message) (rest : List ℕ)
    → outstanding sender.command_queue ≡ []
    → Buffer_valid.IsValid receiver.buffer
    → contents receiver.buffer ≡ outstanding (add_all sender ms).command_queue ++ rest
    → AreReturned c receiver ms
    → (receiver' : Inner) × (recv_times io c (suc fuel) (length ms) receiver s
        ≡ done (receiver', s, map (λ m. returned c receiver.ask_menu m.header m.payload) ms))
      × (contents receiver'.buffer ≡ rest)
      × (receiver'.command_queue ≡ receiver.command_queue)
recv_times-add_all io c fuel sender receiver s ms rest n v e a =
    recv_times-frames io c fuel receiver s ms rest v
      (e ∙ ap (λ t. t ++ rest) (outstanding-add_all sender ms ∙ ap (λ t. t ++ frames ms) n)) a
