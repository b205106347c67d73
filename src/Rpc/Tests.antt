-- ===== src/Rpc/Tests.antt =====
-- The theorems on libp2p-rpc-behaviour at concrete inputs.
use openmina_poc.Base.{
  ℕ, ◌≤◌, ◌<◌, ◌≡◌, refl, sym, ap, List, [], ◌∷◌, ◌++◌, length, All, true, some, done, ready, ok,
  arith, subst,
}
use openmina_poc.Base.Map.{nat_key}
use openmina_poc.Rpc.Bytes.{IsByte, frame, to_le_bytes}
use openmina_poc.Rpc.Wire.{MessageHeader, received_response}
use openmina_poc.Rpc.Buffer.{Buffer, try_cut}
use openmina_poc.Rpc.Buffer.Cut.{contents, IsValid}
use openmina_poc.Rpc.Buffer.Frames.{Cuts, try_cut-Cuts, try_cut-frame}
use openmina_poc.Rpc.State.{
  add, outstanding, Inner, heartbeat_msg, handshake_msg, poll_send, poll_recv,
}
use openmina_poc.Rpc.State.Send.{Sends, Stalls, poll_send-Sends}
use openmina_poc.Rpc.State.Recv as Inner_valid
use openmina_poc.Rpc.State.Recv.{Recvs, poll_recv-Recvs}
use openmina_poc.Rpc.State.Serve.{Message, frames, poll_recv-serves}
use openmina_poc.Rpc.State.Exchange.{add_all, recv_times, recv_times-add_all}
use openmina_poc.Rpc.Example.{
  Script, script_io, script_laws, script_codec, buffer_of, buffer_of-IsValid, contents-buffer_of,
}

-- A heartbeat, a response to query 5, and the first byte of what comes next.
abbrev beat : Message
beat = record { text = 0 ∷ []; header = MessageHeader.heartbeat; payload = [] }

abbrev answer : Message
answer = record { text = 1 ∷ 5 ∷ 9 ∷ []; header = MessageHeader.response 5; payload = 9 ∷ [] }

abbrev received : List ℕ
received = frames (beat ∷ []) ++ (frame answer.text ++ 3 ∷ [])

abbrev inner : Inner
inner = record {
  menu = [];
  command_queue = (0, handshake_msg) ∷ [];
  buffer = buffer_of received;
  ask_menu = true;
}

received-short : length received ≤ 0x1000
unfolding frame to_le_bytes
received-short = omega arith

received-IsByte : All IsByte received
unfolding frame to_le_bytes
received-IsByte = omega arith

poll_recv-serves_example :
    (i' : Inner) × (poll_recv script_io script_codec 2 inner ([], [])
      ≡ done (i', ([], []), ready (ok (received_response 5 (9 ∷ [])))))
    × (i'.command_queue ≡ (0, handshake_msg) ∷ (0, heartbeat_msg) ∷ [])
    × (contents i'.buffer ≡ 3 ∷ [])
    × IsValid i'.buffer
poll_recv-serves_example =
    poll_recv-serves script_io script_codec 2 inner ([], []) (beat ∷ []) (heartbeat_msg ∷ []) answer
      (3 ∷ []) (buffer_of-IsValid received received-short) (contents-buffer_of received)
      (refl, refl, tt) refl refl (omega arith)

-- One more byte arrives.
abbrev arriving : Script
arriving = (7 ∷ [], [])

inner-IsValid : Inner_valid.IsValid inner
inner-IsValid = record {
  buffer = buffer_of-IsValid received received-short;
  bytes = subst (All IsByte) (sym (contents-buffer_of received)) received-IsByte;
  queue = omega arith;
}

received_size : length received < 40
unfolding frame to_le_bytes
received_size = omega arith

poll_recv-Recvs_example :
    Recvs script_io script_laws script_codec inner arriving
      (poll_recv script_io script_codec 50 inner arriving)
poll_recv-Recvs_example =
    poll_recv-Recvs script_io script_laws script_codec 50 inner arriving inner-IsValid
      (omega (arith, received_size))
      (omega (arith, received_size, ap length (contents-buffer_of received)))

poll_send-Sends_example :
    Sends script_io script_laws
      (Stalls script_io script_laws ((10, handshake_msg) ∷ (0, heartbeat_msg) ∷ []) arriving)
      ((10, handshake_msg) ∷ (0, heartbeat_msg) ∷ [])
      arriving
      (poll_send script_io 30 ((10, handshake_msg) ∷ (0, heartbeat_msg) ∷ []) arriving)
poll_send-Sends_example =
    poll_send-Sends script_io script_laws 30 ((10, handshake_msg) ∷ (0, heartbeat_msg) ∷ [])
      arriving (omega arith) (omega arith)

try_cut-Cuts_example :
    Cuts script_codec (buffer_of received) (try_cut script_codec (buffer_of received))
try_cut-Cuts_example =
    try_cut-Cuts script_codec (buffer_of received) (buffer_of-IsValid received received-short)
      (subst (All IsByte) (sym (contents-buffer_of received)) received-IsByte)

answer_short : length (frame answer.text ++ 3 ∷ []) ≤ 0x1000
unfolding frame to_le_bytes
answer_short = omega arith

try_cut-frame_example :
    (b' : Buffer) × (try_cut script_codec (buffer_of (frame answer.text ++ 3 ∷ []))
      ≡ done (b', some (ok (MessageHeader.response 5, 9 ∷ []))))
    × (contents b' ≡ 3 ∷ [])
    × IsValid b'
try_cut-frame_example =
    try_cut-frame script_codec (buffer_of (frame answer.text ++ 3 ∷ [])) answer.text (3 ∷ [])
      (9 ∷ []) (MessageHeader.response 5)
      (buffer_of-IsValid (frame answer.text ++ 3 ∷ []) answer_short)
      (contents-buffer_of (frame answer.text ++ 3 ∷ [])) refl

-- An endpoint adds the answer twice, and the other receives all that and a byte more.
abbrev sender : Inner
sender = record inner { command_queue = [] }

abbrev arrived : List ℕ
arrived = outstanding (add_all sender (answer ∷ answer ∷ [])).command_queue ++ 3 ∷ []

arrived_short : length arrived ≤ 0x1000
unfolding add_all add frame to_le_bytes
arrived_short = omega arith

recv_times-add_all_example :
    (receiver' : Inner) × (recv_times script_io script_codec 1 2
        (record inner { buffer = buffer_of arrived })
        ([], [])
      ≡ done (
        receiver',
        ([], []),
        ok (received_response 5 (9 ∷ [])) ∷ ok (received_response 5 (9 ∷ [])) ∷ [],
      ))
    × (contents receiver'.buffer ≡ 3 ∷ [])
    × (receiver'.command_queue ≡ (0, handshake_msg) ∷ [])
recv_times-add_all_example =
    recv_times-add_all script_io script_codec 0 sender (record inner { buffer = buffer_of arrived })
      ([], []) (answer ∷ answer ∷ []) (3 ∷ []) refl (buffer_of-IsValid arrived arrived_short)
      (contents-buffer_of arrived) (refl, refl, (refl, refl, tt))
