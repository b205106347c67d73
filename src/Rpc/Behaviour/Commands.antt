-- ===== src/Rpc/Behaviour/Commands.antt =====
-- The commands for a peer, from the caller to the swarm: libp2p-rpc-behaviour/src/behaviour.rs over
-- a history of operations.
use openmina_poc.Base.{
  ℕ, ◌≡◌, refl, sym, ap, ◌∙◌, List, [], ◌∷◌, ◌++◌, Option, none, some, Poll, pending, ready,
  if◌then◌else◌, Bool-cases, inl, inr, append-nil, append_assoc, arith,
}
use openmina_poc.Base.Map.{Key, get, remove, get-insert, get-remove}
use openmina_poc.Rpc.Event.{Event, Command}
use openmina_poc.Rpc.Behaviour.{
  Behaviour, ToSwarm, notify_handler, generate_event, FromSwarm, established, closed, another,
  dispatch_command, dispatch_on, handle_established_connection, on_swarm_event,
  on_connection_handler_event, poll_behaviour, pop_event, or_empty, notify_all,
}
use mathlib.Core.List.{Perm, perm_append_comm}
use mathlib.Core.List.Perm

-- What the swarm and the caller do with a behaviour.
pub data Op (P C : Type 0) : Type 0 where
  dispatches : P → Command → Op P C
  connects : C → P → Op P C
  swarms : FromSwarm P C → Op P C
  reports : P → C → Event → Op P C
  polls : ℕ → Op P C

module _ {P C : Type 0} ⦃peer_key : Key P⦄ ⦃connection_key : Key C⦄ where
  -- The new state, and the event that a poll gave out.
  abbrev pub given : Behaviour P C × Poll (ToSwarm P C) → Behaviour P C × List (ToSwarm P C)
  given (b, pending) = (b, [])
  given (b, ready event) = (b, event ∷ [])

  unfoldable pub step : Behaviour P C → Op P C → Behaviour P C × List (ToSwarm P C)
  step b (dispatches peer command) = ((dispatch_command b peer command).0, [])
  step b (connects connection peer) =
      ((handle_established_connection {S = Unit {0}} b connection peer).0, [])
  step b (swarms event) = ((on_swarm_event b event).0, [])
  step b (reports peer connection event) =
      ((on_connection_handler_event b peer connection event).0, [])
  step b (polls waker) = given (poll_behaviour b waker)

  unfoldable pub run : Behaviour P C → List (Op P C) → Behaviour P C × List (ToSwarm P C)
  run b [] = (b, [])
  run b (op ∷ ops) = let (b', out) = step b op in let (b'', more) = run b' ops in (b'', out ++ more)

-- The command itself, where it goes to `p`.
abbrev pub brought : {P : Type 0} ⦃peer_key : Key P⦄ → P → P → Command → List Command
brought ⦃peer_key⦄ p peer command = if peer_key.beq peer p then command ∷ [] else []

module _ {P C : Type 0} ⦃peer_key : Key P⦄ ⦃connection_key : Key C⦄ (p : P) where
  -- The commands to `p` among the events for the swarm, in order.
  unfoldable pub commands_to : List (ToSwarm P C) → List Command
  commands_to [] = []
  commands_to (notify_handler peer connection command ∷ events) =
      if peer_key.beq peer p then command ∷ commands_to events else commands_to events
  commands_to (generate_event peer event ∷ events) = commands_to events

  -- The commands to `p` that are in the behaviour: queued for the swarm, then waiting for a
  -- connection.
  abbrev pub waiting : Behaviour P C → List Command
  waiting b = or_empty (get p b.pending_commands)

  abbrev pub held : Behaviour P C → List Command
  held b = commands_to b.queue ++ waiting b

  -- The commands to `p` that a history brings in.
  abbrev pub issued : List (Op P C) → List Command
  issued [] = []
  issued (dispatches peer command ∷ ops) =
      if peer_key.beq peer p then command ∷ issued ops else issued ops
  issued (connects connection peer ∷ ops) = issued ops
  issued (swarms event ∷ ops) = issued ops
  issued (reports peer connection event ∷ ops) = issued ops
  issued (polls waker ∷ ops) = issued ops

  pub commands_to-append :
      (xs ys : List (ToSwarm P C)) → commands_to (xs ++ ys) ≡ commands_to xs ++ commands_to ys
  unfolding commands_to
  commands_to-append [] ys = refl
  commands_to-append (notify_handler peer connection command ∷ xs) ys =
      ground (arith, commands_to-append xs ys)
  commands_to-append (generate_event peer event ∷ xs) ys = commands_to-append xs ys

  commands_to-notify_all :
      (peer : P) (connection : C) (commands : List Command)
      → commands_to (notify_all peer connection commands)
        ≡ (if peer_key.beq peer p then commands else [])
  unfolding commands_to
  commands_to-notify_all peer connection [] = ground arith
  commands_to-notify_all peer connection (command ∷ commands) =
      ground (arith, commands_to-notify_all peer connection commands)

  flush-held :
      (b : Behaviour P C) (peer : P) (connection : C)
      → commands_to (notify_all peer connection (or_empty (get peer b.pending_commands)))
          ++ or_empty (get p (remove peer b.pending_commands))
        ≡ waiting b
  flush-held b peer connection = elim (Bool-cases (peer_key.beq peer p)) [
    | inl same ↦
        rw
          (
            commands_to-notify_all peer connection (or_empty (get peer b.pending_commands)),
            get-remove peer p b.pending_commands,
            same,
          )
          (append-nil (or_empty (get peer b.pending_commands))
            ∙ ap (λ q. or_empty (get q b.pending_commands)) ((peer_key.beq_iff peer p).0 same))
    | inr other ↦ rw (
      commands_to-notify_all peer connection (or_empty (get peer b.pending_commands)),
      get-remove peer p b.pending_commands,
      other,
    )
  ]

  -- The connection events move nothing but the commands that waited, which they queue.
  pub on_swarm_event-held :
      (b : Behaviour P C) (event : FromSwarm P C) → held (on_swarm_event b event).0 ≡ held b
  unfolding on_swarm_event commands_to
  on_swarm_event-held b another = refl
  on_swarm_event-held b (closed peer connection) =
      ap (λ t. t ++ waiting b)
        (commands_to-append b.queue (generate_event peer _ ∷ []) ∙ append-nil (commands_to b.queue))
  on_swarm_event-held b (established peer connection) =
      let flushed : List (ToSwarm P C) =
        notify_all peer connection (or_empty (get peer b.pending_commands)) in
      ap (λ t. t ++ or_empty (get p (remove peer b.pending_commands)))
        (commands_to-append b.queue (generate_event peer _ ∷ flushed))
      ∙ append_assoc (commands_to b.queue) (commands_to flushed) _
      ∙ ap (λ t. commands_to b.queue ++ t) (flush-held b peer connection)

  pub reports-held :
      (b : Behaviour P C) (peer : P) (connection : C) (event : Event)
      → held (on_connection_handler_event b peer connection event).0 ≡ held b
  unfolding on_connection_handler_event commands_to
  reports-held b peer connection event =
      ap (λ t. t ++ waiting b)
        (commands_to-append b.queue (generate_event peer _ ∷ []) ∙ append-nil (commands_to b.queue))

  -- A poll gives out the front of what is held, or nothing.
  pub polls-held :
      (b : Behaviour P C) (waker : ℕ) (queue : List (ToSwarm P C))
      → b.queue ≡ queue
      → commands_to (given (pop_event b waker queue)).1 ++ held (given (pop_event b waker queue)).0
        ≡ commands_to queue ++ waiting b
  unfolding commands_to
  polls-held b waker [] e = rw e
  polls-held b waker (notify_handler peer connection command ∷ queue) e =
      elim (Bool-cases (peer_key.beq peer p)) [ inl t ↦ rw t | inr f ↦ rw f ]
  polls-held b waker (generate_event peer event ∷ queue) e = refl

  pub dispatch_known-held :
      (b : Behaviour P C) (peer : P) (command : Command) (connection : C)
      → held (dispatch_on b peer command (some connection)).0
        ≡ (commands_to b.queue ++ brought p peer command) ++ waiting b
  unfolding commands_to
  dispatch_known-held b peer command connection =
      ap (λ t. t ++ waiting b)
        (commands_to-append b.queue (notify_handler peer connection command ∷ []))

  pub dispatch_unknown-held :
      (b : Behaviour P C) (peer : P) (command : Command)
      → held (dispatch_on b peer command none).0 ≡ held b ++ brought p peer command
  dispatch_unknown-held b peer command = elim (Bool-cases (peer_key.beq peer p)) [
    | inl same ↦
        rw
          (
            get-insert peer p (or_empty (get peer b.pending_commands) ++ command ∷ [])
                b.pending_commands,
            same,
          )
          (ap (λ q. commands_to b.queue ++ (or_empty (get q b.pending_commands) ++ command ∷ []))
              ((peer_key.beq_iff peer p).0 same)
            ∙ sym (append_assoc (commands_to b.queue) (waiting b) (command ∷ [])))
    | inr other ↦
        rw
          (
            get-insert peer p (or_empty (get peer b.pending_commands) ++ command ∷ [])
                b.pending_commands,
            other,
          )
          (sym (append-nil (held b)))
  ]

  dispatch-held :
      (b : Behaviour P C) (peer : P) (command : Command) (found : Option C)
      → Perm (held (dispatch_on b peer command found).0) (held b ++ brought p peer command)
  dispatch-held b peer command none = rw (dispatch_unknown-held b peer command) (Perm.refl _)
  dispatch-held b peer command (some connection) =
      rw
        (
          dispatch_known-held b peer command connection,
          append_assoc (commands_to b.queue) (brought p peer command) (waiting b),
          append_assoc (commands_to b.queue) (waiting b) (brought p peer command),
        )
        (Perm.append_left (commands_to b.queue)
          (perm_append_comm (brought p peer command) (waiting b)))

  step-held :
      (b : Behaviour P C) (op : Op P C)
      → Perm (commands_to (step b op).1 ++ held (step b op).0) (held b ++ issued (op ∷ []))
  unfolding step dispatch_command handle_established_connection poll_behaviour commands_to
  step-held b (dispatches peer command) = dispatch-held b peer command (get peer b.peers)
  step-held b (connects connection peer) = rw (append-nil (held b)) (Perm.refl _)
  step-held b (swarms event) = rw (append-nil (held b), on_swarm_event-held b event) (Perm.refl _)
  step-held b (reports peer connection event) =
      rw (append-nil (held b), reports-held b peer connection event) (Perm.refl _)
  step-held b (polls waker) =
      rw (append-nil (held b), polls-held b waker b.queue refl) (Perm.refl _)

  pub issued-cons :
      (op : Op P C) (ops : List (Op P C)) → issued (op ∷ ops) ≡ issued (op ∷ []) ++ issued ops
  issued-cons (dispatches peer command) ops = ground arith
  issued-cons (connects connection peer) ops = refl
  issued-cons (swarms event) ops = refl
  issued-cons (reports peer connection event) ops = refl
  issued-cons (polls waker) ops = refl

  -- Over any history, the commands to a peer that were given out, with those that are still held,
  -- are those that were held at first with those that were dispatched: none is lost, none doubled.
  pub run-held :
      (b : Behaviour P C) (ops : List (Op P C))
      → Perm (commands_to (run b ops).1 ++ held (run b ops).0) (held b ++ issued ops)
  unfolding run
  run-held b [] = rw (append-nil (held b)) (unfold commands_to in Perm.refl _)
  run-held b (op ∷ ops) =
      let (b₁, out) = step b op in
      rw
        (
          commands_to-append out (run b₁ ops).1,
          append_assoc (commands_to out) (commands_to (run b₁ ops).1) (held (run b₁ ops).0),
          issued-cons op ops,
          ← append_assoc (held b) (issued (op ∷ [])) (issued ops),
        )
        (Perm.trans (Perm.append_left (commands_to out) (run-held b₁ ops)) (
          rw (← append_assoc (commands_to out) (held b₁) (issued ops))
            (Perm.append_right (issued ops) (step-held b op))))
