-- ===== src/Rpc/State/Rounds.antt =====
-- `poll` of libp2p-rpc-behaviour/src/state.rs, its rounds of sending and receiving.
use openmina_poc.Base.{
  ℕ, ◌+◌, ◌≤◌, ◌≡◌, List, ◌++◌, Bool, true, false, done, panic, stuck, none, ok, err, Result, Poll,
  ready, length, Exec,
}
use openmina_poc.Rpc.Bytes.{u64_mod, frame}
use openmina_poc.Rpc.Wire.{ErrorKind, AsyncIo, IoLaws, Codec, Received}
use openmina_poc.Rpc.Buffer.Cut.{contents, announced}
use openmina_poc.Rpc.Buffer.Fill.{Fits}
use openmina_poc.Rpc.State.{Inner, Queue, Polled, is_empty}
use openmina_poc.Rpc.Reached.{Reached}
use openmina_poc.Rpc.State.Send.{Stalls}
use openmina_poc.Rpc.State.Moves.{Moves}
use openmina_poc.Rpc.State.Recv.{IsValid}

module _ {S : Type 0} (io : AsyncIo S) (laws : IoLaws io) (c : Codec) where
  open laws use {budget, sent}

  -- The stream has moved on and stays valid, and perhaps has found a message whose header does not
  -- read behind what it cut off. Otherwise it panics where, behind the frames that were cut off, a
  -- length within eight of 2 ^ 64 is announced, or it comes to a write that takes nothing.
  pub data Polls (i : Inner) (s : S) : Polled S → Type 0 where
    polls :
        (i' : Inner) (s' : S) (polled : Poll (Result Received ErrorKind))
        → IsValid i'
        → Fits io laws i'.buffer s'
        → Moves io laws c i s i' s'
        → Polls i s (done (i', s', polled))
    refused :
        (i₁ i' : Inner) (s' : S) (text rest : List ℕ)
        → Moves io laws c i s i₁ s'
        → contents i₁.buffer ≡ frame text ++ rest
        → c.read_header text ≡ none
        → i'.command_queue ≡ i₁.command_queue
        → IsValid i'
        → Fits io laws i'.buffer s'
        → Polls i s (done (i', s', ready (err ErrorKind.other)))
    overflowed :
        (i₁ : Inner) (s₁ : S)
        → Moves io laws c i s i₁ s₁
        → 8 ≤ length (contents i₁.buffer)
        → u64_mod ≤ announced i₁.buffer + 8
        → Polls i s panic
    stalled :
        (i₁ : Inner) (s₁ : S)
        → Moves io laws c i s i₁ s₁
        → Stalls io laws i₁.command_queue s₁
        → Polls i s stuck

  -- The sending half of a round, where sending has not had to wait yet.
  data Stages (i : Inner) (s : S) : Exec (Inner × S × Result Bool ErrorKind) → Type 0 where
    stages :
        (queue' : Queue) (s' : S) (flag : Result Bool ErrorKind)
        → IsValid (record i { command_queue = queue' })
        → Moves io laws c i s (record i { command_queue = queue' }) s'
        → (flag ≡ ok false → is_empty queue' ≡ true)
        → Stages i s (done (record i { command_queue = queue' }, s', flag))
    stage_stalls : Stalls io laws i.command_queue s → Stages i s stuck
