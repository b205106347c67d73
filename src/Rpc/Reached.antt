-- ===== src/Rpc/Reached.antt =====
-- The connection of libp2p-rpc-behaviour/src/state.rs over several calls.
use openmina_poc.Base.{
  ℕ, ◌≡◌, sym, subst, List, [], ◌++◌, ok, err, Result, Poll, pending, ready, append_assoc,
  append-nil,
}
use openmina_poc.Rpc.Wire.{ErrorKind, AsyncIo}

module _ {S : Type 0} (io : AsyncIo S) where
  -- The states that a connection comes to by calls of it, with the bytes that its reads gave.
  pub data Reached (s : S) : S → List ℕ → Type 0 where
    at_start : Reached s s []
    by_read :
        (s₁ s₂ : S) (bs given : List ℕ) (n : ℕ)
        → Reached s s₁ bs
        → io.poll_read s₁ n ≡ (s₂, ready (ok given))
        → Reached s s₂ (bs ++ given)
    by_waiting :
        (s₁ s₂ : S) (bs : List ℕ) (n : ℕ)
        → Reached s s₁ bs
        → io.poll_read s₁ n ≡ (s₂, pending)
        → Reached s s₂ bs
    by_failing :
        (s₁ s₂ : S) (bs : List ℕ) (n : ℕ) (x : ErrorKind)
        → Reached s s₁ bs
        → io.poll_read s₁ n ≡ (s₂, ready (err x))
        → Reached s s₂ bs
    by_write :
        (s₁ s₂ : S) (bs out : List ℕ) (polled : Poll (Result ℕ ErrorKind))
        → Reached s s₁ bs
        → io.poll_write s₁ out ≡ (s₂, polled)
        → Reached s s₂ bs

  pub Reached-join :
      (s s₁ s₂ : S) (bs more : List ℕ)
      → Reached s s₁ bs
      → Reached s₁ s₂ more
      → Reached s s₂ (bs ++ more)
  Reached-join s s₁ _ bs _ r at_start = subst (Reached s s₁) (sym (append-nil bs)) r
  Reached-join s s₁ _ bs _ r (by_read t u more given n q e) =
      subst (Reached s u) (append_assoc bs more given)
        (by_read t u (bs ++ more) given n (Reached-join s s₁ t bs more r q) e)
  Reached-join s s₁ _ bs _ r (by_waiting t u more n q e) =
      by_waiting t u (bs ++ more) n (Reached-join s s₁ t bs more r q) e
  Reached-join s s₁ _ bs _ r (by_failing t u more n x q e) =
      by_failing t u (bs ++ more) n x (Reached-join s s₁ t bs more r q) e
  Reached-join s s₁ _ bs _ r (by_write t u more out p q e) =
      by_write t u (bs ++ more) out p (Reached-join s s₁ t bs more r q) e
