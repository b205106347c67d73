-- ===== src/Rpc/Buffer.antt =====
-- `Buffer` of libp2p-rpc-behaviour/src/state.rs: the receive buffer, whose first `offset` bytes are
-- the ones received and not consumed. Lengths are 64-bit: `8 + msg_len` wraps, as it does in the
-- release build that the README asks for.
pub mod Power
pub mod Cut
pub mod Frames
pub mod Fill
use openmina_poc.Base.{
  ℕ, zero, suc, ◌+◌, ◌-◌, ◌*◌, ◌%◌, ◌≤◌, ◌<◌, max, List, ◌++◌, Option, none, some, Exec, done,
  panic, stuck, Poll, pending, ready, Result, ok, err, length, take, drop, replicate, leb, ltb,
  if◌then◌else◌,
}
use openmina_poc.Rpc.Bytes.{u64_mod, from_le_bytes}
use openmina_poc.Rpc.Wire.{ErrorKind, AsyncIo, MessageHeader, Codec}

pub record Buffer : Type 0 where
  pub offset : ℕ
  pub buf : List ℕ

abbrev pub initial_size : ℕ
initial_size = 0x1000

-- `Vec::resize(n, 0)`.
abbrev pub resize : ℕ → List ℕ → List ℕ
resize n xs = take n xs ++ replicate (n - length xs) 0

-- `usize::next_power_of_two`: the first of `p`, `2 * p`, ... that is at least `n`.
pub next_power : ℕ → ℕ → ℕ → ℕ
next_power zero p n = p
next_power (suc k) p n = let rest = next_power k (2 * p) n in if leb n p then p else rest

unfoldable pub next_power_of_two : ℕ → ℕ
unfolding next_power
next_power_of_two n = next_power 64 1 n

unfoldable pub empty : Buffer
empty = record { offset = 0; buf = replicate initial_size 0 }

-- `self.buf[self.offset..]` with the bytes that a read put there.
abbrev pub write_at : ℕ → List ℕ → List ℕ → List ℕ
write_at i bs xs = take i xs ++ bs ++ drop (i + length bs) xs

-- One round of `poll_fill` after its read; `rest` is the loop's next round.
abbrev pub after_read :
    {S : Type 0}
    → Buffer
    → S × Poll (Result (List ℕ) ErrorKind)
    → (Buffer → S → Exec (Buffer × S × Poll (Result ℕ ErrorKind)))
    → Exec (Buffer × S × Poll (Result ℕ ErrorKind))
after_read b (s, pending) rest = done (b, s, pending)
after_read b (s, ready (err e)) rest = done (b, s, ready (err e))
after_read b (s, ready (ok bs)) rest =
    let offset' = b.offset + length bs in
    let buf' = write_at b.offset bs b.buf in
    let grown = resize (2 * length buf') buf' in
    let again = rest (record { offset = offset'; buf = grown }) s in
    if ltb offset' (length buf')
    then done (record { offset = offset'; buf = buf' }, s, ready (ok (length bs)))
    else again

-- The loop of `poll_fill`. Fuel bounds its rounds: each round but the last reads a byte at least.
unfoldable pub poll_fill :
    {S : Type 0} → AsyncIo S → ℕ → Buffer → S → Exec (Buffer × S × Poll (Result ℕ ErrorKind))
poll_fill io zero b s = stuck
poll_fill io (suc fuel) b s =
    after_read b (io.poll_read s (length b.buf - b.offset)) (poll_fill io fuel)

-- What `try_cut` does once the header of a complete message has been read, or not.
abbrev pub cut_message :
    Buffer
    → ℕ
    → Option (MessageHeader × List ℕ)
    → Buffer × Option (Result (MessageHeader × List ℕ) ErrorKind)
cut_message b end none = (record b { offset = b.offset - end }, some (err ErrorKind.other))
cut_message b end (some (header, bytes)) =
    let rest = drop end b.buf in
    (
      record {
        offset = b.offset - end;
        buf = resize (max (next_power_of_two (length rest)) initial_size) rest;
      },
      some (ok (header, bytes)),
    )

-- `none` says that no complete message is there. The slice `8..end` panics where `end` has
-- wrapped, or lies behind the buffer.
unfoldable pub try_cut :
    Codec → Buffer → Exec (Buffer × Option (Result (MessageHeader × List ℕ) ErrorKind))
try_cut c b =
    let end = (8 + from_le_bytes (take 8 b.buf)) % u64_mod in
    if leb 8 b.offset
    then (if leb end b.offset
        then (if leb 8 end
            then (if leb end (length b.buf)
                then done (cut_message b end (c.read_header (take (end - 8) (drop 8 b.buf))))
                else panic)
            else panic)
        else done (b, none))
    else done (b, none)
