-- ===== src/Rpc/Example.antt =====
-- A stream, a codec and buffers for the tests: what arrives on the stream is a list, and every write
-- is taken whole.
use openmina_poc.Base.{
  ℕ, zero, suc, ◌+◌, ◌%◌, ◌≤◌, ◌≡◌, refl, sym, ap, ◌∙◌, List, [], ◌∷◌, ◌++◌, map, length, take,
  drop, replicate, All, Option, none, some, Poll, pending, ready, Result, ok, err, arith,
  length-append, length-replicate, length-take, length-drop, take-append_self, take_all, subst,
}
use openmina_poc.Rpc.Bytes.{IsByte}
use openmina_poc.Rpc.Wire.{ErrorKind, AsyncIo, IoLaws, MessageHeader, Codec}
use openmina_poc.Rpc.Buffer.{Buffer}
use openmina_poc.Rpc.Buffer.Cut.{contents, IsValid}

-- What arrives, and what has been sent.
abbrev pub Script : Type 0
Script = List ℕ × List ℕ

abbrev byte : ℕ → ℕ
byte n = n % 256

length-bytes : (xs : List ℕ) → length (map byte xs) ≡ length xs
length-bytes [] = refl
length-bytes (x ∷ xs) = ap suc (length-bytes xs)

bytes-IsByte : (xs : List ℕ) → All IsByte (map byte xs)
bytes-IsByte [] = tt
bytes-IsByte (x ∷ xs) = (omega arith, bytes-IsByte xs)

abbrev pub script_read : Script → ℕ → Script × Poll (Result (List ℕ) ErrorKind)
script_read ([], sent) n = (([], sent), pending)
script_read (x ∷ xs, sent) n = ((drop n (x ∷ xs), sent), ready (ok (map byte (take n (x ∷ xs)))))

abbrev pub script_io : AsyncIo Script
script_io = record {
  poll_read = script_read;
  poll_write = λ s bs. ((s.0, s.1 ++ bs), ready (ok (length bs)));
}

abbrev pub ready_of {ℓ} : {A : Type ℓ} → A → Poll (Result A ErrorKind) → A
ready_of a pending = a
ready_of a (ready (err e)) = a
ready_of a (ready (ok b)) = b

pub script_read_keeps :
    (s : Script) (n : ℕ) (s' : Script) (polled : Poll (Result (List ℕ) ErrorKind))
    → script_read s n ≡ (s', polled)
    → (length s'.0 ≤ length s.0) × (s'.1 ≡ s.1)
script_read_keeps ([], sent) n s' polled e =
    let same = ap (λ r. r.0) e in
    (omega (arith, ap (λ (t : Script). length t.0) same), sym (ap (λ (t : Script). t.1) same))
script_read_keeps (x ∷ xs, sent) n s' polled e =
    let same = ap (λ r. r.0) e in
    (
      omega (arith, ap (λ (t : Script). length t.0) same, length-drop n (x ∷ xs)),
      sym (ap (λ (t : Script). t.1) same),
    )

pub script_read_fits :
    (s : Script) (n : ℕ) (s' : Script) (bs : List ℕ)
    → script_read s n ≡ (s', ready (ok bs))
    → (length bs ≤ n) × (length bs + length s'.0 ≤ length s.0) × All IsByte bs
script_read_fits ([], sent) n s' bs e = cc (ap (λ r. r.1) e)
script_read_fits (x ∷ xs, sent) n s' bs e =
    let same = ap (λ r. length r.0.0) e in
    let given = ap (λ r. ready_of [] r.1) e in
    let size = length-bytes (take n (x ∷ xs)) ∙ length-take n (x ∷ xs) in
    (
      omega (arith, ap length given, size),
      omega (arith, ap length given, size, same, length-drop n (x ∷ xs)),
      subst (All IsByte) given (bytes-IsByte (take n (x ∷ xs))),
    )

abbrev pub script_laws : IoLaws script_io
script_laws = record {
  budget = λ s. length s.0;
  sent = λ s. s.1;
  read_keeps = script_read_keeps;
  read_fits = script_read_fits;
  write_keeps = λ s bs s' polled e. omega (arith, ap (λ r. length r.0.0) e);
  write_waits = λ s bs s' e. cc (ap (λ r. r.1) e);
  write_fails = λ s bs s' x e. cc (ap (λ r. r.1) e);
  write_takes = λ s bs s' n e.
      let count : length bs ≡ n = ap (λ r. ready_of 0 r.1) e in
      (
        omega (arith, count),
        sym (ap (λ r. r.0.1) e) ∙ ap (λ t. s.1 ++ t) (sym (take_all n bs (omega (arith, count)))),
      );
}

-- A first byte of 0 is a heartbeat, 1 a response, 2 a query of a version and an identifier.
abbrev pub script_header : List ℕ → Option (MessageHeader × List ℕ)
script_header [] = none
script_header (zero ∷ bytes) = some (MessageHeader.heartbeat, bytes)
script_header (suc zero ∷ []) = none
script_header (suc zero ∷ id ∷ bytes) = some (MessageHeader.response id, bytes)
script_header (suc (suc k) ∷ []) = none
script_header (suc (suc k) ∷ version ∷ []) = none
script_header (suc (suc k) ∷ version ∷ id ∷ tag) =
    some (MessageHeader.query (record { tag = tag; version = version; id = id }), [])

abbrev pub script_codec : Codec
script_codec = record {
  read_header = script_header;
  read_menu = λ bytes. some (some []);
  menu_name = b'm' ∷ [];
  menu_version = 1;
  to_string_lossy = λ tag. tag;
  menu_query = 2 ∷ 1 ∷ 0 ∷ b'm' ∷ [];
  menu_response = λ id menu. 1 ∷ id ∷ length menu ∷ [];
}

-- A buffer that has received some bytes.
abbrev pub buffer_of : List ℕ → Buffer
buffer_of bytes = record { offset = length bytes; buf = bytes ++ replicate 0x1000 0 }

pub buffer_of-IsValid : (bytes : List ℕ) → length bytes ≤ 0x1000 → IsValid (buffer_of bytes)
buffer_of-IsValid bytes h =
    let size : length (bytes ++ replicate 0x1000 0) ≡ length bytes + 0x1000 =
      length-append bytes (replicate 0x1000 0)
      ∙ ap (λ (n : ℕ). length bytes + n) (length-replicate {A = ℕ} 0x1000 0) in
    record {
      within = omega (arith, size);
      roomy = omega (arith, size);
      bounded = omega (arith, size);
    }

pub contents-buffer_of : (bytes : List ℕ) → contents (buffer_of bytes) ≡ bytes
contents-buffer_of bytes = take-append_self bytes (replicate 0x1000 0)
