-- ===== src/Rpc/State/Serve.antt =====
-- `poll_recv` of libp2p-rpc-behaviour/src/state.rs on messages that have arrived.
use openmina_poc.Base.{
  bytes_eq, ℕ, zero, suc, ◌<◌, ◌≡◌, sym, ap, ◌∙◌, List, [], ◌∷◌, ◌++◌, Bool, ◌&&◌, map, done, ok,
  err, Result, ready, arith, length, Option, none, some, append_assoc, append-nil, inl, inr,
  Bool-cases, ◌==◌, if◌then◌else◌,
}
use openmina_poc.Rpc.Bytes.{frame}
use openmina_poc.Rpc.Wire.{
  ErrorKind, AsyncIo, MessageHeader, Codec, Received, Menu, received_query, received_response,
  handshake_done,
}
use openmina_poc.Rpc.Buffer.Cut.{contents}
use openmina_poc.Rpc.Buffer.Cut as Buffer_valid
use openmina_poc.Rpc.Buffer.Frames.{try_cut-frame}
use openmina_poc.Rpc.State.{Inner, Queue, add, handle, poll_recv, heartbeat_msg, read_menu, h_id}

-- A message as it travels, with what the codec reads in it.
pub record Message : Type 0 where
  pub text : List ℕ
  pub header : MessageHeader
  pub payload : List ℕ

abbrev pub IsReadable : Codec → Message → Type 0
IsReadable c m = c.read_header m.text ≡ some (m.header, m.payload)

abbrev pub frames : List Message → List ℕ
frames [] = []
frames (m ∷ ms) = frame m.text ++ frames ms

-- Heartbeats and questions for the menu are answered by the crate itself.
abbrev pub reply_to : Codec → Menu → MessageHeader → Option (List ℕ)
reply_to c menu MessageHeader.heartbeat = some heartbeat_msg
reply_to c menu (MessageHeader.response id) = none
reply_to c menu (MessageHeader.query header) =
    if bytes_eq header.tag c.menu_name && header.version == c.menu_version
    then some (frame (c.menu_response header.id menu))
    else none

-- All else goes to the caller.
abbrev pub returned : Codec → Bool → MessageHeader → List ℕ → Result Received ErrorKind
returned c ask_menu MessageHeader.heartbeat payload = err ErrorKind.other
returned c ask_menu (MessageHeader.response id) payload =
    if id == h_id
    then ok handshake_done
    else if id == 0 && ask_menu
    then read_menu c (c.read_menu payload)
    else ok (received_response id payload)
returned c ask_menu (MessageHeader.query header) payload = ok (received_query header payload)

-- The messages are readable, and these are the replies to them.
abbrev pub Answers : Codec → Menu → List Message → List (List ℕ) → Type 0
Answers c menu [] [] = Unit
Answers c menu [] (r ∷ rs) = ⊥
Answers c menu (m ∷ ms) [] = ⊥
Answers c menu (m ∷ ms) (r ∷ rs) =
    IsReadable c m × (reply_to c menu m.header ≡ some r) × Answers c menu ms rs

abbrev pub unsent : List (List ℕ) → Queue
unsent = map (λ bytes. (0, bytes))

handle-reply :
    (c : Codec) (i : Inner) (header : MessageHeader) (payload reply : List ℕ)
    → reply_to c i.menu header ≡ some reply
    → handle c i header payload ≡ (add i reply, none)
unfolding handle
handle-reply c i MessageHeader.heartbeat payload reply e = ap (λ r. (add i r, none)) (ground arith)
handle-reply c i (MessageHeader.response id) payload reply e = cc
handle-reply c i (MessageHeader.query header) payload reply e =
    elim (Bool-cases (bytes_eq header.tag c.menu_name && header.version == c.menu_version)) [
      | inl t ↦ rw t (ap (λ r. (add i r, none)) (ground arith))
      | inr f ↦ ground arith
    ]

pub handle-returned :
    (c : Codec) (i : Inner) (header : MessageHeader) (payload : List ℕ)
    → reply_to c i.menu header ≡ none
    → handle c i header payload ≡ (i, some (returned c i.ask_menu header payload))
unfolding handle
handle-returned c i MessageHeader.heartbeat payload e = cc
handle-returned c i (MessageHeader.response id) payload e = elim (Bool-cases (id == h_id)) [
  | inl e ↦ rw e
  | inr e ↦ elim (Bool-cases (id == 0 && i.ask_menu)) [ inl f ↦ rw (e, f) | inr f ↦ rw (e, f) ]
]
handle-returned c i (MessageHeader.query header) payload e =
    elim (Bool-cases (bytes_eq header.tag c.menu_name && header.version == c.menu_version)) [
      | inl t ↦ ground arith
      | inr f ↦ rw f
    ]

module _ {S : Type 0} (io : AsyncIo S) (c : Codec) where
  -- Let the valid buffer begin with frames of readable messages that the crate answers itself, and
  -- then with one that goes to the caller. With fuel for a round each, they are served in order,
  -- before the connection is touched: each heartbeat and each question for the menu puts its reply behind the queue, and the
  -- first message of another kind is returned, with the rest of the bytes kept.
  pub poll_recv-serves :
      (fuel : ℕ) (i : Inner) (s : S) (ms : List Message) (replies : List (List ℕ)) (m : Message)
      (rest : List ℕ)
      → Buffer_valid.IsValid i.buffer
      → contents i.buffer ≡ frames ms ++ (frame m.text ++ rest)
      → Answers c i.menu ms replies
      → IsReadable c m
      → reply_to c i.menu m.header ≡ none
      → length ms < fuel
      → (i' : Inner) × (poll_recv io c fuel i s
          ≡ done (i', s, ready (returned c i.ask_menu m.header m.payload)))
        × (i'.command_queue ≡ i.command_queue ++ unsent replies)
        × (contents i'.buffer ≡ rest)
        × Buffer_valid.IsValid i'.buffer
  unfolding poll_recv add
  poll_recv-serves zero i s ms replies m rest v e a r n h = absurd (omega arith)
  poll_recv-serves (suc fuel) i s [] [] m rest v e a r n h =
      let (b', cut, behind, v') = try_cut-frame c i.buffer m.text rest m.payload m.header v e r in
      (
        record i { buffer = b' },
        rw (cut, handle-returned c (record i { buffer = b' }) m.header m.payload n),
        sym (append-nil i.command_queue),
        behind,
        v',
      )
  poll_recv-serves (suc fuel) i s [] (x ∷ xs) m rest v e a r n h = elim a [ ]
  poll_recv-serves (suc fuel) i s (p ∷ ms) [] m rest v e a r n h = elim a [ ]
  poll_recv-serves (suc fuel) i s (p ∷ ms) (x ∷ xs) m rest v e a r n h =
      let (b', cut, behind, v') =
        try_cut-frame c i.buffer p.text (frames ms ++ (frame m.text ++ rest)) p.payload p.header v
          (e ∙ append_assoc (frame p.text) (frames ms) (frame m.text ++ rest)) a.0 in
      let i₁ : Inner = record i { buffer = b' } in
      let (i', run, queue, last, v'') =
        poll_recv-serves fuel (add i₁ x) s ms xs m rest v' behind a.2 r n (omega arith) in
      (
        i',
        rw (cut, handle-reply c i₁ p.header p.payload x a.1) run,
        queue ∙ append_assoc i.command_queue ((0, x) ∷ []) (unsent xs),
        last,
        v'',
      )
