-- ===== src/Rpc/Wire.antt =====
-- What the RPC crate takes from outside, and the messages it hands on: the byte stream under a
-- connection (`AsyncRead` and `AsyncWrite`), the binprot codec of mina-p2p-messages, and
-- `Received` of libp2p-rpc-behaviour/src/state.rs. Neither library is in the repository, so the
-- stream and the codec are parameters of everything that uses them. An `i64` identifier and an
-- `i32` version stand as their bit patterns: the code compares them and counts them up.
use openmina_poc.Base.{
  ℕ, ◌+◌, ◌≤◌, ◌≡◌, List, Option, Poll, pending, ready, Result, ok, err, length, All, take, ◌++◌,
}
use openmina_poc.Rpc.Bytes.{IsByte}

-- `io::ErrorKind`; a kind that the crate does not name is numbered.
pub data ErrorKind : Type 0 where
  unexpected_eof other : ErrorKind
  io_kind : ℕ → ErrorKind

-- `poll_read` into a slice of the given length returns the bytes that it put there, and
-- `poll_write` how many bytes it took.
pub record AsyncIo (S : Type 0) : Type 0 where
  pub poll_read : S → ℕ → S × Poll (Result (List ℕ) ErrorKind)
  pub poll_write : S → List ℕ → S × Poll (Result ℕ ErrorKind)

-- What the traits document: a read gives bytes that fit the slice and sends nothing, and a write
-- sends the first bytes of what it was given, as many as it says, or nothing at all. `budget` bounds
-- the bytes that the peer still sends, and `sent` is what has been written so far.
pub record IoLaws {S : Type 0} (io : AsyncIo S) : Type 0 where
  pub budget : S → ℕ
  pub sent : S → List ℕ
  pub read_keeps :
      (s : S) (n : ℕ) (s' : S) (polled : Poll (Result (List ℕ) ErrorKind))
      → io.poll_read s n ≡ (s', polled)
      → (budget s' ≤ budget s) × (sent s' ≡ sent s)
  pub read_fits :
      (s : S) (n : ℕ) (s' : S) (bs : List ℕ)
      → io.poll_read s n ≡ (s', ready (ok bs))
      → (length bs ≤ n) × (length bs + budget s' ≤ budget s) × All IsByte bs
  pub write_keeps :
      (s : S) (bs : List ℕ) (s' : S) (polled : Poll (Result ℕ ErrorKind))
      → io.poll_write s bs ≡ (s', polled)
      → budget s' ≤ budget s
  pub write_waits :
      (s : S) (bs : List ℕ) (s' : S) → io.poll_write s bs ≡ (s', pending) → sent s' ≡ sent s
  pub write_fails :
      (s : S) (bs : List ℕ) (s' : S) (e : ErrorKind)
      → io.poll_write s bs ≡ (s', ready (err e))
      → sent s' ≡ sent s
  pub write_takes :
      (s : S) (bs : List ℕ) (s' : S) (n : ℕ)
      → io.poll_write s bs ≡ (s', ready (ok n))
      → (n ≤ length bs) × (sent s' ≡ sent s ++ take n bs)

-- `QueryHeader`, the tag as its bytes.
pub record QueryHeader : Type 0 where
  pub tag : List ℕ
  pub version : ℕ
  pub id : ℕ

-- `MessageHeader` of mina-p2p-messages; a response header holds only the identifier.
pub data MessageHeader : Type 0 where
  heartbeat : MessageHeader
  response : ℕ → MessageHeader
  query : QueryHeader → MessageHeader

-- `BTreeSet<(&'static str, i32)>`, in order: names as bytes, with versions.
abbrev pub Menu : Type 0
Menu = List (List ℕ × ℕ)

-- The binprot encodings, and the name and version of `VersionedRpcMenuV1`. A failed read is
-- `none`; `read_menu` gives no menu where the peer answered with an error. `to_string_lossy` is the
-- method of the tags of that menu.
pub record Codec : Type 0 where
  pub read_header : List ℕ → Option (MessageHeader × List ℕ)
  pub read_menu : List ℕ → Option (Option Menu)
  pub menu_name : List ℕ
  pub menu_version : ℕ
  pub to_string_lossy : List ℕ → List ℕ
  pub menu_query : List ℕ
  pub menu_response : ℕ → Menu → List ℕ

-- `Received` of state.rs.
pub data Received : Type 0 where
  received_query : QueryHeader → List ℕ → Received
  received_response : ℕ → List ℕ → Received
  menu_listed : Menu → Received
  handshake_done : Received
