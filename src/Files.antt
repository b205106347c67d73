-- ===== src/Files.antt =====
-- The files that bootstrap-sandbox keeps (src/record.rs, src/bootstrap.rs, src/replay.rs): a file
-- under a path has bytes. Paths are relative to the directory `path_main`, and directories need not
-- be made.
use openmina_poc.Base.{
  ℕ, zero, suc, ◌+◌, ◌/◌, ◌%◌, ◌==◌, List, [], ◌∷◌, Bool, true, false, ◌&&◌, Option, some,
  if◌then◌else◌, bytes_eq, bytes_eq_refl, bytes_eq→≡, and_true, Bool-cases, ◌≡◌, refl, ap, ◌∙◌, ◌≢◌,
  inl, inr, ◌↔◌, sym, ltb, ◌||◌, arith,
}
use openmina_poc.Base.Map.{Key}

abbrev pub FilePath : Type 0
FilePath = List (List ℕ)

abbrev pub Files : Type 0
Files = FilePath → Option (List ℕ)

unfoldable pub path_eq : FilePath → FilePath → Bool
path_eq [] [] = true
path_eq [] (y ∷ ys) = false
path_eq (x ∷ xs) [] = false
path_eq (x ∷ xs) (y ∷ ys) = bytes_eq x y && path_eq xs ys

-- `File::create` and the writing of the whole contents.
unfoldable pub create : FilePath → List ℕ → Files → Files
create path bytes files other = if path_eq path other then some bytes else files other

-- The digits of `u32::to_string`, before the digits that are there: a step for each.
unfoldable pub digits : ℕ → ℕ → List ℕ → List ℕ
digits zero n ds = ds
digits (suc fuel) n ds =
    let ds' = (b'0' + n % 10) ∷ ds in
    let rest = digits fuel (n / 10) ds' in if n / 10 == 0 then ds' else rest

-- A number of 32 bits has at most ten digits.
unfoldable pub decimal : ℕ → List ℕ
decimal n = digits 10 n []

pub path_eq_refl : (path : FilePath) → path_eq path path ≡ true
unfolding path_eq
path_eq_refl [] = refl
path_eq_refl (x ∷ xs) = rw (bytes_eq_refl x) (path_eq_refl xs)

pub path_eq→≡ : (path other : FilePath) → path_eq path other ≡ true → path ≡ other
unfolding path_eq
path_eq→≡ [] [] e = refl
path_eq→≡ [] (y ∷ ys) e = search
path_eq→≡ (x ∷ xs) [] e = search
path_eq→≡ (x ∷ xs) (y ∷ ys) e =
    let (heads, tails) = and_true (bytes_eq x y) (path_eq xs ys) e in
    ap (λ z. z ∷ xs) (bytes_eq→≡ x y heads) ∙ ap (◌∷◌ y) (path_eq→≡ xs ys tails)

pub create_self :
    (path : FilePath) (bytes : List ℕ) (files : Files) → create path bytes files path ≡ some bytes
unfolding create
create_self path bytes files = rw (path_eq_refl path)

pub create_ne :
    (path other : FilePath) (bytes : List ℕ) (files : Files)
    → path ≢ other
    → create path bytes files other ≡ files other
unfolding create
create_ne path other bytes files ne = elim (Bool-cases (path_eq path other)) [
  | inl same ↦ absurd (ne (path_eq→≡ path other same))
  | inr apart ↦ rw apart
]

-- `Ord` of strings: their order byte by byte.
unfoldable pub bytes_before : List ℕ → List ℕ → Bool
bytes_before [] [] = false
bytes_before [] (y ∷ ys) = true
bytes_before (x ∷ xs) [] = false
bytes_before (x ∷ xs) (y ∷ ys) = ltb x y || (x == y && bytes_before xs ys)

pub bytes_eq_iff : (xs ys : List ℕ) → (bytes_eq xs ys ≡ true) ↔ (xs ≡ ys)
bytes_eq_iff xs ys =
    (bytes_eq→≡ xs ys, λ e. ap (λ (z : List ℕ). bytes_eq xs z) (sym e) ∙ bytes_eq_refl xs)

pub before_irrefl : (xs : List ℕ) → bytes_before xs xs ≡ false
unfolding bytes_before
before_irrefl [] = refl
before_irrefl (x ∷ xs) = ground (arith, before_irrefl xs)

pub before_trans :
    (xs ys zs : List ℕ)
    → bytes_before xs ys ≡ true
    → bytes_before ys zs ≡ true
    → bytes_before xs zs ≡ true
unfolding bytes_before
before_trans xs [] [] p q = absurd cc
before_trans [] [] (z ∷ zs) p q = absurd cc
before_trans (x ∷ xs) [] (z ∷ zs) p q = absurd cc
before_trans xs (y ∷ ys) [] p q = absurd cc
before_trans [] (y ∷ ys) (z ∷ zs) p q = refl
before_trans (x ∷ xs) (y ∷ ys) (z ∷ zs) p q = ground (arith, before_trans xs ys zs)

pub before_total :
    (xs ys : List ℕ)
    → bytes_eq xs ys ≡ false
    → bytes_before xs ys ≡ false
    → bytes_before ys xs ≡ true
unfolding bytes_before bytes_eq
before_total [] [] p q = absurd cc
before_total [] (y ∷ ys) p q = absurd cc
before_total (x ∷ xs) [] p q = refl
before_total (x ∷ xs) (y ∷ ys) p q = ground (arith, before_total xs ys)

instance abbrev pub bytes_key : Key (List ℕ)
bytes_key = record {
  beq = bytes_eq;
  before = bytes_before;
  beq_iff = bytes_eq_iff;
  before_irrefl = before_irrefl;
  before_trans = before_trans;
  before_total = before_total;
}
