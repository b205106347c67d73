-- ===== src/Rpc/State/Moves.antt =====
-- What happens between two states of a stream (`Inner` of libp2p-rpc-behaviour/src/state.rs): bytes
-- are read, frames are cut off their front, replies are queued, and queued bytes are sent.
use openmina_poc.Base.{
  ℕ, ◌≤◌, ◌≡◌, ap, sym, ◌∙◌, List, [], ◌∷◌, ◌++◌, All, All-append, Option, none, some, append_assoc,
  arith, refl, append-nil,
}
use openmina_poc.Rpc.Bytes.{frame}
use openmina_poc.Rpc.Wire.{AsyncIo, IoLaws, Codec, Menu}
use openmina_poc.Rpc.Reached.{Reached, Reached-join, at_start}
use openmina_poc.Rpc.Buffer.Cut.{contents}
use openmina_poc.Rpc.State.{Inner, outstanding}
use openmina_poc.Rpc.State.Serve.{Message, IsReadable, frames, reply_to}

abbrev pub or_nothing {ℓ} : {A : Type ℓ} → Option (List A) → List A
or_nothing none = []
or_nothing (some xs) = xs

-- The bytes of the replies to messages: to a heartbeat and to a question for the menu.
abbrev pub replies : Codec → Menu → List Message → List ℕ
replies c menu [] = []
replies c menu (m ∷ ms) = or_nothing (reply_to c menu m.header) ++ replies c menu ms

frames-append : (ms more : List Message) → frames (ms ++ more) ≡ frames ms ++ frames more
frames-append [] more = refl
frames-append (m ∷ ms) more =
    ap (λ t. frame m.text ++ t) (frames-append ms more)
    ∙ sym (append_assoc (frame m.text) (frames ms) (frames more))

replies-append :
    (c : Codec) (menu : Menu) (ms more : List Message)
    → replies c menu (ms ++ more) ≡ replies c menu ms ++ replies c menu more
replies-append c menu [] more = refl
replies-append c menu (m ∷ ms) more =
    ap (λ t. or_nothing (reply_to c menu m.header) ++ t) (replies-append c menu ms more)
    ∙ sym (append_assoc (or_nothing (reply_to c menu m.header)) _ _)

module _ {S : Type 0} (io : AsyncIo S) (laws : IoLaws io) (c : Codec) where
  open laws use {budget, sent}

  -- From one state to another by calls of the connection: with the bytes read, `ms` have been cut off
  -- the front of what was received, and what was sent, followed by what is queued, has grown by the
  -- replies to them alone.
  pub record Moves (i : Inner) (s : S) (i' : Inner) (s' : S) : Type 0 where
    pub ms : List Message
    pub given : List ℕ
    pub readable : All (IsReadable c) ms
    pub reached : Reached io s s' given
    pub received : contents i.buffer ++ given ≡ frames ms ++ contents i'.buffer
    pub queued :
        sent s' ++ outstanding i'.command_queue
        ≡ (sent s ++ outstanding i.command_queue) ++ replies c i.menu ms
    pub menu : i'.menu ≡ i.menu
    pub less : budget s' ≤ budget s

  pub Moves-join :
      (i i₁ i₂ : Inner) (s s₁ s₂ : S) → Moves i s i₁ s₁ → Moves i₁ s₁ i₂ s₂ → Moves i s i₂ s₂
  Moves-join i i₁ i₂ s s₁ s₂ p q = record {
    ms = p.ms ++ q.ms;
    given = p.given ++ q.given;
    readable = All-append (IsReadable c) p.ms q.ms p.readable q.readable;
    reached = Reached-join io s s₁ s₂ p.given q.given p.reached q.reached;
    received =
        sym (append_assoc (contents i.buffer) p.given q.given)
        ∙ ap (λ t. t ++ q.given) p.received
        ∙ append_assoc (frames p.ms) (contents i₁.buffer) q.given
        ∙ ap (λ t. frames p.ms ++ t) q.received
        ∙ sym (append_assoc (frames p.ms) (frames q.ms) (contents i₂.buffer))
        ∙ ap (λ t. t ++ contents i₂.buffer) (sym (frames-append p.ms q.ms));
    queued =
        q.queued
        ∙ ap (λ t. t ++ replies c i₁.menu q.ms) p.queued
        ∙ ap
            (λ t.
              ((sent s ++ outstanding i.command_queue) ++ replies c i.menu p.ms)
              ++ replies c t q.ms)
            p.menu
        ∙ append_assoc (sent s ++ outstanding i.command_queue) (replies c i.menu p.ms)
            (replies c i.menu q.ms)
        ∙ ap (λ t. (sent s ++ outstanding i.command_queue) ++ t)
            (sym (replies-append c i.menu p.ms q.ms));
    menu = q.menu ∙ p.menu;
    less = omega (arith, p.less, q.less);
  }

  -- Where no message is cut off and nothing is queued.
  pub still-Moves :
      (i i' : Inner) (s s' : S) (given : List ℕ)
      → Reached io s s' given
      → contents i'.buffer ≡ contents i.buffer ++ given
      → sent s' ++ outstanding i'.command_queue ≡ sent s ++ outstanding i.command_queue
      → i'.menu ≡ i.menu
      → budget s' ≤ budget s
      → Moves i s i' s'
  still-Moves i i' s s' given g e q n l = record {
    ms = [];
    given = given;
    readable = tt;
    reached = g;
    received = sym e;
    queued = q ∙ sym (append-nil (sent s ++ outstanding i.command_queue));
    menu = n;
    less = l;
  }

  pub Moves-refl : (i : Inner) (s : S) → Moves i s i s
  Moves-refl i s =
      still-Moves i i s s [] at_start (sym (append-nil (contents i.buffer))) refl refl (omega arith)
