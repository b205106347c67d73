-- ===== src/Rpc/Behaviour/Wakes.antt =====
-- The waker of libp2p-rpc-behaviour/src/behaviour.rs: what a call of `poll` that found nothing leaves
-- behind, and the operations that wake it.
use openmina_poc.Base.{
  ℕ, ◌≡◌, refl, sym, ap, ◌∙◌, List, [], ◌∷◌, Option, none, some, Poll, pending, ready, length,
  replicate, All, ◌⊎◌, inl, inr,
}
use openmina_poc.Base.Map.{Key, get}
use openmina_poc.Rpc.Event.{Command}
use openmina_poc.Rpc.Behaviour.{
  Behaviour, ToSwarm, FromSwarm, established, closed, another, dispatch_command, dispatch_on,
  handle_established_connection, on_swarm_event, on_connection_handler_event, poll_behaviour,
  pop_event,
}
use openmina_poc.Rpc.Behaviour.Commands.{
  Op, dispatches, connects, swarms, reports, polls, step, run,
}

module _ {P C : Type 0} ⦃peer_key : Key P⦄ ⦃connection_key : Key C⦄ where
  -- The waker that an operation wakes.
  unfoldable pub woken_by : Behaviour P C → Op P C → Option ℕ
  woken_by b (dispatches peer command) = (dispatch_command b peer command).1
  woken_by b (connects connection peer) = none
  woken_by b (swarms event) = (on_swarm_event b event).1
  woken_by b (reports peer connection event) =
      (on_connection_handler_event b peer connection event).1
  woken_by b (polls waker) = none

  abbrev pub Woken : ℕ → Behaviour P C → List (Op P C) → Type 0
  Woken waker b [] = ⊥
  Woken waker b (op ∷ ops) = (woken_by b op ≡ some waker) ⊎ Woken waker (step b op).0 ops

  abbrev pub NoPoll : Op P C → Type 0
  NoPoll (dispatches peer command) = Unit
  NoPoll (connects connection peer) = Unit
  NoPoll (swarms event) = Unit
  NoPoll (reports peer connection event) = Unit
  NoPoll (polls waker) = ⊥

  -- An operation wakes the waker that is kept, or leaves the queue and the waker as they are.
  abbrev Wakes : Behaviour P C → Option ℕ → Behaviour P C → Type 0
  Wakes b woken b' = (woken ≡ b.waker) ⊎ ((b'.queue ≡ b.queue) × (b'.waker ≡ b.waker))

  dispatch_on-Wakes :
      (b : Behaviour P C) (peer : P) (command : Command) (serving : Option C)
      → Wakes b (dispatch_on b peer command serving).1 (dispatch_on b peer command serving).0
  dispatch_on-Wakes b peer command (some connection) = inl refl
  dispatch_on-Wakes b peer command none = inr (refl, refl)

  on_swarm_event-Wakes :
      (b : Behaviour P C) (event : FromSwarm P C)
      → Wakes b (on_swarm_event b event).1 (on_swarm_event b event).0
  unfolding on_swarm_event
  on_swarm_event-Wakes b (established peer connection) = inl refl
  on_swarm_event-Wakes b (closed peer connection) = inl refl
  on_swarm_event-Wakes b another = inr (refl, refl)

  step-Wakes : (b : Behaviour P C) (op : Op P C) → NoPoll op → Wakes b (woken_by b op) (step b op).0
  unfolding step woken_by dispatch_command handle_established_connection on_connection_handler_event
  step-Wakes b (dispatches peer command) h = dispatch_on-Wakes b peer command (get peer b.peers)
  step-Wakes b (connects connection peer) h = inr (refl, refl)
  step-Wakes b (swarms event) h = on_swarm_event-Wakes b event
  step-Wakes b (reports peer connection event) h = inl refl
  step-Wakes b (polls waker) h = absurd h

  run-Wakes :
      (b : Behaviour P C) (ops : List (Op P C)) (waker : ℕ)
      → b.waker ≡ some waker
      → All NoPoll ops
      → ((run b ops).0.queue ≡ b.queue) ⊎ Woken waker b ops
  unfolding run
  run-Wakes b [] waker kept no_polls = inl refl
  run-Wakes b (op ∷ ops) waker kept no_polls = elim (step-Wakes b op no_polls.0) [
    | inl woken ↦ inr (inl (woken ∙ kept))
    | inr (queue, same) ↦ elim (run-Wakes (step b op).0 ops waker (same ∙ kept) no_polls.1) [
      | inl still ↦ inl (still ∙ queue)
      | inr later ↦ inr (inr later)
    ]
  ]

  -- As many polls as there are events give them all out, in order.
  drains :
      (b : Behaviour P C) (queue : List (ToSwarm P C)) (waker : ℕ)
      → b.queue ≡ queue
      → (run b (replicate (length queue) (polls waker))).1 ≡ queue
  unfolding run step poll_behaviour
  drains b [] waker e = refl
  drains b (event ∷ queue) waker e =
      let popped : poll_behaviour b waker ≡ (record b { queue = queue }, ready event) =
        ap (pop_event b waker) e in
      rw popped (ap (◌∷◌ event) (drains (record b { queue = queue }) queue waker refl))

  pop_event-pending :
      (b0 b : Behaviour P C) (waker : ℕ) (queue : List (ToSwarm P C))
      → b0.queue ≡ queue
      → pop_event b0 waker queue ≡ (b, pending)
      → (b.queue ≡ []) × (b.waker ≡ some waker)
  pop_event-pending b0 b waker [] empty e =
      let same : record b0 { waker = some waker } ≡ b =
        ap (λ (r : Behaviour P C × Poll (ToSwarm P C)). r.0) e in
      (
        ap (λ (x : Behaviour P C). x.queue) (sym same) ∙ empty,
        ap (λ (x : Behaviour P C). x.waker) (sym same),
      )
  pop_event-pending b0 b waker (event ∷ queue) full e =
      let polled : ready event ≡ pending = ap (λ (r : Behaviour P C × Poll (ToSwarm P C)). r.1) e in
      absurd cc

  -- No event is left lying: after a poll with nothing to give out, over any operations but polls,
  -- either the queue is still empty, or one of the operations has woken the waker of that poll; and
  -- as many polls as there are events in the queue give them all out, in order.
  pub run-Woken :
      (b0 b : Behaviour P C) (waker next : ℕ) (ops : List (Op P C))
      → poll_behaviour b0 waker ≡ (b, pending)
      → All NoPoll ops
      → (let queue = (run b ops).0.queue in
          ((queue ≡ []) ⊎ Woken waker b ops)
          × ((run (run b ops).0 (replicate (length queue) (polls next))).1 ≡ queue))
  unfolding poll_behaviour
  run-Woken b0 b waker next ops e no_polls =
      let (empty, kept) = pop_event-pending b0 b waker b0.queue refl e in
      (
        elim (run-Wakes b ops waker kept no_polls) [
          | inl still ↦ inl (still ∙ empty)
          | inr woken ↦ inr woken
        ],
        drains (run b ops).0 (run b ops).0.queue next refl,
      )
