-- ===== src/Record/Collect.antt =====
-- The walk of `again` (bootstrap-sandbox/src/bootstrap.rs) over the files that `download_blocks`
-- (bootstrap-sandbox/src/record.rs) left.
use openmina_poc.Base.{
  ℕ, zero, suc, ◌<◌, arith, List, ◌∷◌, done, ◌≡◌, ◌≢◌, Bool-cases, inl, inr, true, false,
}
use openmina_poc.Base.Map.{Map}
use openmina_poc.Files.{Files, bytes_key}
use openmina_poc.Mina.{Mina, Lawful}
use openmina_poc.Bootstrap.{Staging, collect_blocks}
use openmina_poc.Record.Disk.{Truthful, Listed}
use openmina_poc.Record.Download.{previous, ancestors, Tabled}

module _ (mina : Mina) (laws : Lawful mina) (block_at : mina.Hash → mina.Block) where
  -- The block whose hash is `stop` is the one before the `n` blocks before a block, and is none of
  -- them.
  abbrev pub Stops : ℕ → mina.Block → mina.Hash → Type 0
  Stops zero block stop = previous mina block_at block ≡ stop
  Stops (suc n) block stop =
      (previous mina block_at block ≢ stop) × Stops n (block_at (previous mina block_at block)) stop

  hash_eq-true : (h k : mina.Hash) → h ≡ k → mina.hash_eq h k ≡ true
  hash_eq-true h k e = (laws.hash_eq_iff h k).1 e

  hash_eq-false : (h k : mina.Hash) → h ≢ k → mina.hash_eq h k ≡ false
  hash_eq-false h k ne = elim (Bool-cases (mina.hash_eq h k)) [
    | inl same ↦ absurd (ne ((laws.hash_eq_iff h k).0 same))
    | inr apart ↦ apart
  ]

  module _ {T H : Type 0} (staging : Staging mina T H) where
    -- Over files as a recording keeps them, with an entry for each of the `n` blocks, the walk ends
    -- with `n + 1` steps of fuel and has collected those blocks, the oldest first.
    pub collect_blocks-ancestors :
        (n fuel : ℕ) (files : Files) (table : Map (List ℕ) ℕ) (block : mina.Block)
        (stop : mina.Hash) (blocks : List mina.Block)
        → n < fuel
        → Truthful mina laws block_at files
        → Listed mina laws block_at table files
        → Tabled mina block_at n block table
        → Stops n block stop
        → collect_blocks mina staging fuel files table stop (previous mina block_at block) blocks
          ≡ done (ancestors mina block_at n block blocks)
    unfolding collect_blocks
    collect_blocks-ancestors n zero files table block stop blocks lt truthful listed tabled stops =
        absurd (omega arith)
    collect_blocks-ancestors zero (suc fuel) files table block stop blocks lt truthful listed tabled
          stops =
        rw (hash_eq-true (previous mina block_at block) stop stops)
    collect_blocks-ancestors (suc n) (suc fuel) files table block stop blocks lt truthful listed
          tabled stops =
        let hash = previous mina block_at block in
        let ((height, entry), tabled') = tabled in
        let (bytes, stored) = listed hash height entry in
        rw (hash_eq-false hash stop stops.0, entry, stored, truthful height hash bytes stored)
          (collect_blocks-ancestors n fuel files table (block_at hash) stop (block_at hash ∷ blocks)
            (omega arith) truthful listed tabled' stops.1)
