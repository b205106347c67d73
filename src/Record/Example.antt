-- ===== src/Record/Example.antt =====
-- A chain of numbered blocks, each before the next, for the theorems on recordings
-- (bootstrap-sandbox/src/record.rs) at concrete inputs.
use openmina_poc.Base.{
  ℕ, zero, suc, ◌-◌, ◌%◌, ◌≡◌, ◌≢◌, refl, ap, ◌∙◌, arith, List, [], ◌∷◌, ◌++◌, append_assoc,
  append-nil, replicate, length, length-replicate, All, Option, none, some, ok, err, ◌==◌, ==_iff,
  sym, Bool, true, false, if◌then◌else◌, Bool-cases, inl, inr,
}
use openmina_poc.Base.Map.{Map, nat_key, get}
use openmina_poc.Client.{libp2p}
use openmina_poc.Mina.{Mina, Peer, Lawful, BestTip}
use openmina_poc.Ledger.Bin.{Bin, BinLawful}
use openmina_poc.Ledger.Tests.{tree, peer}
use openmina_poc.Bootstrap.{Staging, Aux}
use openmina_poc.Record.{Node}
use openmina_poc.Record.Download.{Recorded, Answers}
use openmina_poc.Files.{Files}

abbrev pub write_best_tip : Option (BestTip ℕ) → List ℕ
write_best_tip none = []
write_best_tip (some tip) = tip.head ∷ tip.root ∷ []

abbrev pub read_best_tip : List ℕ → Option (Option (BestTip ℕ))
read_best_tip [] = some none
read_best_tip (head ∷ []) = none
read_best_tip (head ∷ root ∷ rest) = some (some (record { head = head; root = root }))

abbrev pub read_block : List ℕ → Option ℕ
read_block [] = none
read_block (b ∷ rest) = some b

abbrev pub write_proof : Option (Unit {0}) → List ℕ
write_proof none = 0 ∷ []
write_proof (some p) = 1 ∷ []

abbrev pub read_proof : List ℕ → Option (Option (Unit {0}))
read_proof [] = none
read_proof (zero ∷ rest) = some none
read_proof (suc n ∷ rest) = some (some tt)

-- A table: the bytes of each name after a one, and its number after a zero.
abbrev pub write_name : List ℕ → List ℕ → List ℕ
write_name [] rest = rest
write_name (b ∷ s) rest = 1 ∷ b ∷ write_name s rest

abbrev pub write_table : Map (List ℕ) ℕ → List ℕ
write_table [] = []
write_table ((s, n) ∷ table) = write_name s (0 ∷ n ∷ write_table table)

abbrev pub with_entry : List ℕ → ℕ → Option (Map (List ℕ) ℕ) → Option (Map (List ℕ) ℕ)
with_entry s n none = none
with_entry s n (some table) = some ((s, n) ∷ table)

abbrev pub read_entries : List ℕ → List ℕ → Option (Map (List ℕ) ℕ)
read_entries s [] = some []
read_entries s (x ∷ []) = none
read_entries s (zero ∷ n ∷ rest) = with_entry s n (read_entries [] rest)
read_entries s (suc x ∷ b ∷ rest) = read_entries (s ++ b ∷ []) rest

read-write_name :
    (s t rest : List ℕ) → read_entries s (write_name t rest) ≡ read_entries (s ++ t) rest
read-write_name s [] rest = ap (λ (r : List ℕ). read_entries r rest) (sym (append-nil s))
read-write_name s (b ∷ t) rest =
    read-write_name (s ++ b ∷ []) t rest
    ∙ ap (λ (r : List ℕ). read_entries r rest) (append_assoc s (b ∷ []) t)

pub read-write_table : (table : Map (List ℕ) ℕ) → read_entries [] (write_table table) ≡ some table
read-write_table [] = refl
read-write_table ((s, n) ∷ table) =
    read-write_name [] s (0 ∷ n ∷ write_table table) ∙ ap (with_entry s n) (read-write_table table)

abbrev pub numbered : Mina
numbered = record {
  Block = ℕ;
  State = ℕ;
  Hash = ℕ;
  Proof = Unit {0};
  protocol_state = λ b. b;
  previous_state_hash = λ s. s - 1;
  blockchain_length = λ s. s;
  state_hash = λ s. s;
  hash_eq = ◌==◌;
  to_string = λ h. replicate h 1;
  write_best_tip = write_best_tip;
  read_best_tip = read_best_tip;
  write_block = λ b. b ∷ [];
  read_block = read_block;
  write_proof = write_proof;
  read_proof = read_proof;
  write_table = write_table;
  read_table = read_entries [];
}

read-write_best_tip : (tip : Option (BestTip ℕ)) → read_best_tip (write_best_tip tip) ≡ some tip
read-write_best_tip none = refl
read-write_best_tip (some tip) = refl

ones-plain : (h : ℕ) → All (λ (c : ℕ). c ≢ b'_') (replicate h 1)
ones-plain zero = tt
ones-plain (suc h) = (λ e. absurd (omega (arith, e)), ones-plain h)

pub numbered-Lawful : Lawful numbered
numbered-Lawful = record {
  read-write_best_tip = read-write_best_tip;
  read-write_block = λ b. refl;
  read-write_table = read-write_table;
  hash_eq_iff = ==_iff;
  to_string-plain = ones-plain;
  to_string_injective =
      λ h k e. sym (length-replicate h 1) ∙ ap (λ (s : List ℕ). length s) e ∙ length-replicate k 1;
}

abbrev pub chain_peer : Peer numbered (Unit {0})
chain_peer = record {
  transition_chain = λ w hashes. (w, ok (some hashes));
  transition_chain_proof = λ w h. (w, err libp2p);
}

abbrev pub write_aux : Option (Aux (Unit {0}) ℕ (Unit {0}) ℕ) → List ℕ
write_aux none = []
write_aux (some aux) = aux.expected_ledger_hash ∷ aux.states

abbrev pub read_aux : List ℕ → Option (Option (Aux (Unit {0}) ℕ (Unit {0}) ℕ))
read_aux [] = some none
read_aux (h ∷ states) = some (
    some (record {
      scan_state = tt;
      expected_ledger_hash = h;
      pending_coinbase = tt;
      states = states;
    }))

pub read-write_aux :
    (aux : Option (Aux (Unit {0}) ℕ (Unit {0}) ℕ)) → read_aux (write_aux aux) ≡ some aux
read-write_aux none = refl
read-write_aux (some aux) = refl

abbrev pub staging : Staging numbered (List ℕ) ℕ
staging = record {
  Staged = ℕ;
  StagedHash = ℕ;
  ScanState = Unit {0};
  Pending = Unit {0};
  Field = ℕ;
  field_key = nat_key;
  to_fp = λ h. some h;
  staged_ledger_hash = λ s. s;
  snarked_ledger_hash = λ s. 1;
  next_epoch_ledger_hash = λ s. 1;
  ledger_hash_value = λ h. some (h ∷ []);
  of_scan_state = λ x t h y find. find 2;
  hash = λ staged. staged;
  staged_hash_eq = ◌==◌;
  to_json = λ h. h ∷ [];
  apply = λ staged b prev supercharge. some (b, b);
  write_aux = write_aux;
  read_aux = read_aux;
}

abbrev pub write_hash : Option ℕ → List ℕ
write_hash none = 0 ∷ 0 ∷ []
write_hash (some h) = 1 ∷ h ∷ []

abbrev pub read_hash : List ℕ → Option (Option ℕ × List ℕ)
read_hash [] = none
read_hash (x ∷ []) = none
read_hash (zero ∷ h ∷ rest) = some (none, rest)
read_hash (suc x ∷ h ∷ rest) = some (some h, rest)

-- The identifier of an account is its last digit.
abbrev pub has_id : ℕ → List ℕ → Bool
has_id i [] = false
has_id i (a ∷ accounts) = if a % 10 == i then true else has_id i accounts

abbrev pub bin : Bin (List ℕ) ℕ ℕ
bin = record {
  AccountId = ℕ;
  account_id = λ a. a % 10;
  accounts = λ t. t;
  get_or_create_account = λ t i a. if has_id i t then some t else some (t ++ a ∷ []);
  write_hash = write_hash;
  read_hash = read_hash;
  write_accounts = λ accounts. accounts;
  read_accounts = λ bytes. some (bytes, []);
}

read-write_hash : (h : Option ℕ) (rest : List ℕ) → read_hash (write_hash h ++ rest) ≡ some (h, rest)
read-write_hash none rest = refl
read-write_hash (some h) rest = refl

has_id-false : (i : ℕ) (t : List ℕ) → All (λ b. b % 10 ≢ i) t → has_id i t ≡ false
has_id-false i [] others = refl
has_id-false i (a ∷ t) (ne, others) = elim (Bool-cases (a % 10 == i)) [
  | inl same ↦ absurd (ne ((==_iff (a % 10) i).0 same))
  | inr apart ↦ rw apart (has_id-false i t others)
]

pub bin-Lawful : BinLawful tree bin
bin-Lawful = record {
  read-write_hash = read-write_hash;
  read-write_accounts = λ accounts. refl;
  accounts-create = refl;
  create_account = λ t a others room. (t ++ a ∷ [], rw (has_id-false (a % 10) t others), refl);
}

abbrev pub tip : BestTip ℕ
tip = record { head = 5; root = 2 }

abbrev pub node : Node numbered staging (Unit {0}) ℕ
node = record {
  Ancestry = Unit {0};
  peer = chain_peer;
  best_tip = λ w. (w, ok (some tip));
  ancestry = λ w s. (w, ok (some tt));
  write_ancestry = λ a. [];
  ask = peer;
  staged_aux = λ w h. (
    w,
    ok (
        some (record {
          scan_state = tt;
          expected_ledger_hash = 1;
          pending_coinbase = tt;
          states = 2 ∷ [];
        })),
  );
}

abbrev pub no_files : Files
no_files path = none

abbrev pub block_at : ℕ → ℕ
block_at h = h

-- Nothing is recorded yet.
pub nothing-Recorded : Recorded numbered block_at numbered-Lawful chain_peer no_files []
unfolding get
nothing-Recorded =
    (refl, λ height h bytes e. absurd cc, λ h height e. absurd cc, λ h height e. absurd cc)

pub answering : Answers numbered block_at chain_peer 2 5
answering = (λ w. (w, [], refl), refl, omega arith, (λ w. (w, [], refl), refl, omega arith, tt))
