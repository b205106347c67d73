-- ===== src/Rpc/Behaviour/Order.antt =====
-- The order of the commands for a peer, in libp2p-rpc-behaviour/src/behaviour.rs.
use openmina_poc.Base.{
  ◌≡◌, refl, sym, ap, ◌∙◌, List, [], ◌∷◌, ◌++◌, true, false, Option, none, some, Bool-cases, ◌⊎◌,
  inl, inr, append-nil, append_assoc,
}
use openmina_poc.Base.Map.{Key, get, get-insert, get-remove, beq_refl}
use openmina_poc.Rpc.Event.{Event, Command}
use openmina_poc.Rpc.Behaviour.{
  Behaviour, closed, dispatch_command, dispatch_on, handle_established_connection, on_swarm_event,
  on_connection_handler_event, poll_behaviour,
}
use openmina_poc.Rpc.Behaviour.Commands.{
  Op, dispatches, connects, swarms, reports, polls, step, run, commands_to, waiting, held, issued,
  brought, commands_to-append, dispatch_unknown-held, dispatch_known-held, on_swarm_event-held,
  reports-held, polls-held, issued-cons,
}

module _ {P C : Type 0} ⦃peer_key : Key P⦄ ⦃connection_key : Key C⦄ (p : P) where
  -- A command to a peer that is connected goes behind the commands that wait for a connection only
  -- if there are none.
  abbrev pub IsSettled : Behaviour P C → Type 0
  IsSettled b = (get p b.peers ≡ none) ⊎ (waiting p b ≡ [])

  -- At each command to `p` the behaviour is settled.
  abbrev pub Orderly : Behaviour P C → List (Op P C) → Type 0
  Orderly b [] = Unit
  Orderly b (dispatches peer command ∷ ops) =
      (peer_key.beq peer p ≡ true → IsSettled b) × Orderly (step b (dispatches peer command)).0 ops
  Orderly b (connects connection peer ∷ ops) = Orderly (step b (connects connection peer)).0 ops
  Orderly b (swarms event ∷ ops) = Orderly (step b (swarms event)).0 ops
  Orderly b (reports peer connection event ∷ ops) =
      Orderly (step b (reports peer connection event)).0 ops
  Orderly b (polls waker ∷ ops) = Orderly (step b (polls waker)).0 ops

  dispatch-in_order :
      (b : Behaviour P C) (peer : P) (command : Command) (found : Option C)
      → get peer b.peers ≡ found
      → (peer_key.beq peer p ≡ true → IsSettled b)
      → held p (dispatch_on b peer command found).0 ≡ held p b ++ brought p peer command
  dispatch-in_order b peer command none e settled = dispatch_unknown-held p b peer command
  dispatch-in_order b peer command (some connection) e settled =
      dispatch_known-held p b peer command connection
      ∙ append_assoc (commands_to p b.queue) (brought p peer command) (waiting p b)
      ∙ ap (λ t. commands_to p b.queue ++ t) (swap (Bool-cases (peer_key.beq peer p)))
      ∙ sym (append_assoc (commands_to p b.queue) (waiting p b) (brought p peer command))
    where
      swap :
          ((peer_key.beq peer p ≡ true) ⊎ (peer_key.beq peer p ≡ false))
          → brought p peer command ++ waiting p b ≡ waiting p b ++ brought p peer command
      swap (inr other) = rw other (sym (append-nil (waiting p b)))
      swap (inl same) = elim (settled same) [
        | inl unknown ↦ cc (e, unknown, ap (λ q. get q b.peers) ((peer_key.beq_iff peer p).0 same))
        | inr none_waits ↦ rw none_waits (append-nil (brought p peer command))
      ]

  step-in_order :
      (b : Behaviour P C) (op : Op P C) (ops : List (Op P C))
      → Orderly b (op ∷ ops)
      → (commands_to p (step b op).1 ++ held p (step b op).0 ≡ held p b ++ issued p (op ∷ []))
        × Orderly (step b op).0 ops
  unfolding step dispatch_command handle_established_connection poll_behaviour commands_to
  step-in_order b (dispatches peer command) ops o =
      (dispatch-in_order b peer command (get peer b.peers) refl o.0, o.1)
  step-in_order b (connects connection peer) ops o = (sym (append-nil (held p b)), o)
  step-in_order b (swarms event) ops o =
      (on_swarm_event-held p b event ∙ sym (append-nil (held p b)), o)
  step-in_order b (reports peer connection event) ops o =
      (reports-held p b peer connection event ∙ sym (append-nil (held p b)), o)
  step-in_order b (polls waker) ops o =
      (polls-held p b waker b.queue refl ∙ sym (append-nil (held p b)), o)

  -- In a history in which every command to the peer is dispatched while the peer is not connected or
  -- no command waits for it, the commands are given out in the order in which they were dispatched:
  -- those given out, then those held, are those held at first, then those dispatched.
  pub run-in_order :
      (b : Behaviour P C) (ops : List (Op P C))
      → Orderly b ops
      → commands_to p (run b ops).1 ++ held p (run b ops).0 ≡ held p b ++ issued p ops
  unfolding run
  run-in_order b [] o = unfold commands_to in sym (append-nil (held p b))
  run-in_order b (op ∷ ops) o =
      let (b₁, out) = step b op in
      let (now, later) = step-in_order b op ops o in
      ap (λ t. t ++ held p (run b₁ ops).0) (commands_to-append p out (run b₁ ops).1)
      ∙ append_assoc (commands_to p out) (commands_to p (run b₁ ops).1) (held p (run b₁ ops).0)
      ∙ ap (λ t. commands_to p out ++ t) (run-in_order b₁ ops later)
      ∙ sym (append_assoc (commands_to p out) (held p b₁) (issued p ops))
      ∙ ap (λ t. t ++ issued p ops) now
      ∙ append_assoc (held p b) (issued p (op ∷ [])) (issued p ops)
      ∙ ap (λ t. held p b ++ t) (sym (issued-cons p op ops))

  -- The newer of a peer's two connections closes, a command is dispatched, the older connection
  -- reports an event, and another command is dispatched.
  abbrev pub stranded : C → C → Command → Event → Command → List (Op P C)
  stranded newer older first event second =
      swarms (closed p newer)
      ∷ dispatches p first
      ∷ reports p older event
      ∷ dispatches p second
      ∷ []

  -- A peer is served by the newer of two connections and no command waits for it. After the newer
  -- one closes, a command is dispatched, the older one reports an event and another command is
  -- dispatched, the older connection serves the peer, but the first command still waits and the
  -- second has been queued for the swarm: it overtook the first.
  pub run-stranded :
      (b : Behaviour P C) (newer older : C) (first second : Command) (event : Event)
      → get p b.peers ≡ some newer
      → waiting p b ≡ []
      → let b' = (run b (stranded newer older first event second)).0 in
        (get p b'.peers ≡ some older)
        × (waiting p b' ≡ first ∷ [])
        × (commands_to p b'.queue ≡ commands_to p b.queue ++ second ∷ [])
  unfolding run step dispatch_command on_swarm_event on_connection_handler_event
  run-stranded b newer older first second event e w = (
    simp (e, beq_refl, get-remove, get-insert),
    simp (e, beq_refl, get-remove, get-insert) (ap (λ t. t ++ first ∷ []) w),
    simp (e, beq_refl, get-remove, get-insert, commands_to-append)
        (unfold commands_to in simp (append-nil, beq_refl)),
  )
