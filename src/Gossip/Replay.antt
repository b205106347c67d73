-- ===== src/Gossip/Replay.antt =====
-- What is replayed of recorded gossip (gossipsub-sandbox/src/main.rs).
use openmina_poc.Base.{
  ℕ, zero, suc, ◌+◌, ◌-◌, ◌%◌, ◌<◌, ◌≤◌, ◌≡◌, refl, sym, ap, ◌∙◌, arith, List, [], ◌∷◌, ◌++◌,
  append_assoc, append-nil, Bool, false, Option, none, some, Exec, done, ◌==◌, ltb, if◌then◌else◌,
  length, take, drop, All, Bool-cases, inl, inr, le→ltb_false, take-append_eq, drop-append_eq,
  length-append, length-drop,
}
use openmina_poc.Rpc.Bytes.{
  from_le_bytes, to_le_bytes, frame, u64_mod, length-to_le_bytes, length-frame,
  from_le_bytes-to_le_bytes,
}
use openmina_poc.Record.Ends.{Ends}
use openmina_poc.Gossip.{
  GossipEvent, message, other_event, record_event, record_all, on_publish, on_length, replay_loop,
  replay,
}

-- A message is framed: its payload, which is not empty, after its length, which fits with the eight
-- bytes before it.
abbrev pub Framed : List ℕ → Type 0
Framed bytes =
    (kind : ℕ) × (payload : List ℕ) × (bytes ≡ frame (kind ∷ payload))
    × (8 + length (kind ∷ payload) < u64_mod)

abbrev pub FramedEvent : GossipEvent → Type 0
FramedEvent (message bytes) = Framed bytes
FramedEvent other_event = Unit

abbrev is_diff : List ℕ → Bool
is_diff [] = false
is_diff (kind ∷ rest) = kind == 1

-- The messages whose ninth byte is 1.
abbrev pub diffs : List GossipEvent → List (List ℕ)
diffs [] = []
diffs (message bytes ∷ events) =
    let rest = diffs events in if is_diff (drop 8 bytes) then bytes ∷ rest else rest
diffs (other_event ∷ events) = diffs events

abbrev pub concat : List (List ℕ) → List ℕ
concat [] = []
concat (bytes ∷ rest) = bytes ++ concat rest

drop-frame : (payload : List ℕ) → drop 8 (frame payload) ≡ payload
unfolding frame
drop-frame payload =
    drop-append_eq 8 (to_le_bytes 8 (length payload % u64_mod)) payload
      (length-to_le_bytes 8 (length payload % u64_mod))

pub record_all-diffs :
    (file : List ℕ) (events : List GossipEvent)
    → All FramedEvent events
    → record_all file events ≡ done (file ++ concat (diffs events))
unfolding record_all record_event
record_all-diffs file [] framed = ap done (sym (append-nil file))
record_all-diffs file (other_event ∷ events) framed = record_all-diffs file events framed.1
record_all-diffs file (message bytes ∷ events) ((kind, payload, same, fits), framed) =
    let body : drop 8 bytes ≡ kind ∷ payload = ap (drop 8) same ∙ drop-frame (kind ∷ payload) in
    elim (Bool-cases (kind == 1)) [
      | inl diff ↦
          rw (body, diff)
            (record_all-diffs (file ++ bytes) events framed
              ∙ ap done (append_assoc file bytes (concat (diffs events))))
      | inr other ↦ rw (body, other) (record_all-diffs file events framed)
    ]

ltb-false : (a b : ℕ) → ltb a b ≡ false → b ≤ a
ltb-false a b h = ground arith

module _ {S : Type 0} (publish : S → List ℕ → Option S) where
  -- All of the messages published in order, with an abort at the first that fails.
  abbrev pub publish_all : List (List ℕ) → S → Exec S
  publish_all [] s = done s
  publish_all (bytes ∷ rest) s = on_publish publish (publish s bytes) (publish_all rest)

  turn-frame :
      (fuel : ℕ) (payload rest : List ℕ) (s : S)
      → 8 + length payload < u64_mod
      → replay_loop publish (suc fuel) (frame payload ++ rest) s
        ≡ on_publish publish (publish s (frame payload)) (replay_loop publish fuel rest)
  unfolding replay_loop frame
  turn-frame fuel payload rest s fits =
      let n = length payload in
      let len = to_le_bytes 8 (n % u64_mod) in
      let whole : (len ++ payload) ++ rest ≡ len ++ (payload ++ rest) =
        append_assoc len payload rest in
      let sized = length-to_le_bytes 8 (n % u64_mod) in
      let fits_n : n % u64_mod ≡ n = omega arith in
      let number : from_le_bytes len ≡ n =
        from_le_bytes-to_le_bytes 8 (n % u64_mod) (omega arith) ∙ fits_n in
      let size : (8 + n) % u64_mod ≡ 8 + n = omega arith in
      let long : ltb (length (len ++ (payload ++ rest))) 8 ≡ false =
        le→ltb_false (length (len ++ (payload ++ rest))) 8
          (omega (arith, length-append len (payload ++ rest), sized)) in
      let enough : ltb (length (payload ++ rest)) n ≡ false =
        le→ltb_false (length (payload ++ rest)) n (omega (arith, length-append payload rest)) in
      let small : ltb (8 + n) 8 ≡ false = le→ltb_false (8 + n) 8 (omega arith) in
      let less : 8 + n - 8 ≡ n = omega arith in
      rw (
        whole,
        long,
        take-append_eq 8 len (payload ++ rest) sized,
        drop-append_eq 8 len (payload ++ rest) sized,
        number,
        size,
        small,
        less,
        enough,
        take-append_eq n payload rest refl,
        drop-append_eq n payload rest refl,
      )

  replay_loop-concat :
      (fuel : ℕ) (messages : List (List ℕ)) (s : S)
      → All Framed messages
      → length messages < fuel
      → replay_loop publish fuel (concat messages) s ≡ publish_all messages s
  unfolding replay_loop
  replay_loop-concat zero messages s framed lt = absurd (omega arith)
  replay_loop-concat (suc fuel) [] s framed lt = refl
  replay_loop-concat (suc fuel) (bytes ∷ messages) s ((kind, payload, same, fits), framed) lt =
      ap (λ (b : List ℕ). replay_loop publish (suc fuel) (b ++ concat messages) s) same
      ∙ turn-frame fuel (kind ∷ payload) (concat messages) s fits
      ∙ ap
          (λ (b : List ℕ).
            on_publish publish (publish s b) (replay_loop publish fuel (concat messages)))
          (sym same)
      ∙ on_publish-same (publish s bytes) (replay_loop publish fuel (concat messages))
          (publish_all messages) (λ s'. replay_loop-concat fuel messages s' framed (omega arith))
    where
      on_publish-same :
          (o : Option S) (f g : S → Exec S)
          → ((s' : S) → f s' ≡ g s')
          → on_publish publish o f ≡ on_publish publish o g
      on_publish-same none f g h = refl
      on_publish-same (some s') f g h = h s'

  diffs-Framed : (events : List GossipEvent) → All FramedEvent events → All Framed (diffs events)
  diffs-Framed [] framed = tt
  diffs-Framed (other_event ∷ events) framed = diffs-Framed events framed.1
  diffs-Framed (message bytes ∷ events) framed = elim (Bool-cases (is_diff (drop 8 bytes))) [
    | inl diff ↦ rw diff (framed.0, diffs-Framed events framed.1)
    | inr other ↦ rw other (diffs-Framed events framed.1)
  ]

  count-concat :
      (messages : List (List ℕ)) → All Framed messages → length messages ≤ length (concat messages)
  count-concat [] framed = omega arith
  count-concat (bytes ∷ messages) ((kind, payload, same, fits), framed) = omega (
    arith,
    length-append bytes (concat messages),
    ap (λ (b : List ℕ). length b) same,
    length-frame (kind ∷ payload),
    count-concat messages framed,
  )

  -- Where every message of a run is framed, the recording aborts on none, and the replay of the file
  -- that it leaves publishes the recorded messages, those whose ninth byte is 1, each whole, once and
  -- in order, and aborts only where a publishing fails.
  pub replay-record_all :
      (events : List GossipEvent) (s : S)
      → All FramedEvent events
      → (file : List ℕ) × (record_all [] events ≡ done file)
        × (replay publish file s ≡ publish_all (diffs events) s)
  unfolding replay
  replay-record_all events s framed =
      let kept = diffs-Framed events framed in
      (
        concat (diffs events),
        record_all-diffs [] events framed,
        replay_loop-concat (suc (length (concat (diffs events)))) (diffs events) s kept
            (omega (arith, count-concat (diffs events) kept)),
      )

  replay_loop-Ends :
      (fuel : ℕ) (file : List ℕ) (s : S)
      → length file < fuel
      → Ends (replay_loop publish fuel file s)
  unfolding replay_loop
  replay_loop-Ends zero file s lt = absurd (omega arith)
  replay_loop-Ends (suc fuel) file s lt = elim (Bool-cases (ltb (length file) 8)) [
    | inl short ↦ rw short tt
    | inr long ↦
        let size = (8 + from_le_bytes (take 8 file)) % u64_mod in
        let left : (n : ℕ) → length (drop n (drop 8 file)) < fuel = λ n. omega (
          arith,
          length-drop n (drop 8 file),
          length-drop 8 file,
          ltb-false (length file) 8 long,
        ) in
        rw long (
          on_length-Ends size (take 8 file) (drop 8 file) s (replay_loop publish fuel)
            (λ n s'. replay_loop-Ends fuel (drop n (drop 8 file)) s' (left n)))
  ]
    where
      on_publish-Ends :
          (o : Option S) (f : S → Exec S) → ((s' : S) → Ends (f s')) → Ends (on_publish publish o f)
      on_publish-Ends none f h = tt
      on_publish-Ends (some s') f h = h s'

      on_length-Ends :
          (size : ℕ) (len file' : List ℕ) (s0 : S) (rest : List ℕ → S → Exec S)
          → ((n : ℕ) (s' : S) → Ends (rest (drop n file') s'))
          → Ends (on_length publish size len file' s0 rest)
      on_length-Ends size len file' s0 rest h = elim (Bool-cases (ltb size 8)) [
        | inl small ↦ rw small tt
        | inr big ↦ elim (Bool-cases (ltb (length file') (size - 8))) [
          | inl cut ↦ rw (big, cut) tt
          | inr whole ↦
              rw (big, whole)
                (on_publish-Ends (publish s0 (len ++ take (size - 8) file'))
                  (rest (drop (size - 8) file')) (h (size - 8)))
        ]
      ]

  -- On any file the replay ends: it comes to the end of the file or aborts.
  pub replay-Ends : (file : List ℕ) (s : S) → Ends (replay publish file s)
  unfolding replay
  replay-Ends file s = replay_loop-Ends (suc (length file)) file s (omega arith)
