-- ===== src/Ledger/Tests.antt =====
-- The theorems on the snarked ledger at concrete inputs: a tree that is a list of numbers, whose
-- hash everywhere is their count.
use openmina_poc.Base.{
  ℕ, ◌+◌, ◌*◌, ◌-◌, ◌^◌, ◌≡◌, refl, List, [], ◌∷◌, ◌++◌, length, none, some, done, ok, ◌==◌, arith,
}
use openmina_poc.Ledger.{
  Mask, query_num_accounts, what_contents, what_child_hashes, answer_num_accounts, contents_are,
  child_hashes_are, replied, Ask, SnarkedLedger, serve_query, sync_new, child_bytes,
}
use openmina_poc.Ledger.Contents.{at, serve_query-contents}
use openmina_poc.Ledger.Sync.{Finishes, Copied, sync_new-Copied}
use openmina_poc.Ledger.Prefix.{from_be_bytes, child_bytes-prefix}

-- An address is its length and its index; the bytes of a query are one number here.
abbrev pub first_byte : List ℕ → ℕ
first_byte [] = 0
first_byte (b ∷ bs) = b

abbrev pub tree : Mask (List ℕ) (ℕ × ℕ) ℕ ℕ ℕ
tree = record {
  create = [];
  num_accounts = λ t. length t;
  merkle_root = λ t. length t;
  get_inner_hash_at_addr = λ t d. some (length t);
  get = λ t d. at d.1 t;
  set_at_index = λ t i a. some (t ++ a ∷ []);
  from_index = λ i d. (d, i);
  from_bytes = λ d bytes. (d, first_byte bytes);
  address_length = λ d. d.0;
  to_index = λ d. d.1;
  child_left = λ d. (d.0 + 1, 2 * d.1);
  child_right = λ d. (d.0 + 1, 2 * d.1 + 1);
  hash_eq = ◌==◌;
  from_account = λ a. a;
  to_account = λ a. a;
}

-- A peer that holds the one account 5.
abbrev pub peer : Ask (Unit {0}) ℕ ℕ
peer s root query_num_accounts = (s, replied (ok (answer_num_accounts 1 1)))
peer s root (what_child_hashes depth bytes) = (s, replied (ok (child_hashes_are 1 1)))
peer s root (what_contents depth bytes) = (s, replied (ok (contents_are (5 ∷ []))))

abbrev copied : SnarkedLedger (List ℕ) ℕ
copied = record { inner = 4 ∷ 5 ∷ 6 ∷ []; top_hash = none; num = 3 }

serve_query-contents_example :
    serve_query tree copied (what_contents 34 (1 ∷ [])) ≡ done (contents_are (6 ∷ []))
unfolding at
serve_query-contents_example =
    serve_query-contents tree copied (4 ∷ 5 ∷ 6 ∷ []) 34 (1 ∷ []) 34 1 (λ i. refl, refl) refl refl
      (omega arith) (omega arith)

sync_new-Copied_example : Finishes (Copied tree peer 1 tt) (sync_new tree peer copied tt 1)
sync_new-Copied_example = sync_new-Copied tree peer copied tt 1

child_bytes-prefix_example :
    (length (child_bytes 9 257) ≡ 2)
    × (from_be_bytes 0 (child_bytes 9 257) * 2 ^ (32 - 8 * length (child_bytes 9 257))
        ≡ 257 * 2 ^ 23)
child_bytes-prefix_example = child_bytes-prefix 9 257 (omega arith) (omega arith)
