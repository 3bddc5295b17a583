-- ===== src/Upload/Arrival.antt =====
-- When `UploadRpc::allPartArrived` of code/src/long_connect/upload_rpc.cpp finds a file complete.
use network_disk_server.Base.{
  ℕ, zero, suc, ◌^◌, ◌≤◌, ◌<◌, ◌≡◌, ◌↔◌, refl, ap, Bool, true, false, some, List, [], ◌∷◌, map,
  ◌==◌, if◌then◌else◌, length, arith, inl, inr, Bool-cases,
}
use network_disk_server.Base.Distinct.{has, distinct}
use network_disk_server.Base.Text.{Bytes, c_str, to_string}
use network_disk_server.Host.{Host}
use network_disk_server.FileSys.{ls_dir, visible}
use network_disk_server.Upload.{all_part_arrived, as_size}

abbrev erase : ℕ → List ℕ → List ℕ
erase i [] = []
erase i (x ∷ xs) = let rest = x ∷ erase i xs in if i == x then xs else rest

length-erase : (i : ℕ) (xs : List ℕ) → has i xs ≡ true → suc (length (erase i xs)) ≡ length xs
length-erase i [] h = cc
length-erase i (x ∷ xs) h = elim (Bool-cases (i == x)) [
  | inl e ↦ ground arith
  | inr e ↦ ground (arith, length-erase i xs (ground arith))
]

has-erase : (i k : ℕ) (xs : List ℕ) → has k xs ≡ true → (k == i) ≡ false → has k (erase i xs) ≡ true
has-erase i k [] h d = cc
has-erase i k (x ∷ xs) h d = elim (Bool-cases (i == x)) [
  | inl e ↦ ground arith
  | inr e ↦ elim (Bool-cases (k == x)) [
    | inl e' ↦ ground arith
    | inr e' ↦ ground (arith, has-erase i k xs (ground arith) d)
  ]
]

-- Distinct numbers that all stand in a list are at most as many as it has.
length-distinct :
    (xs ys : List ℕ)
    → distinct xs ≡ true
    → ((k : ℕ) → has k xs ≡ true → has k ys ≡ true)
    → length xs ≤ length ys
length-distinct [] ys d sub = omega arith
length-distinct (x ∷ xs) ys d sub =
    let found : has x ys ≡ true = sub x (ground arith) in
    let shorter = length-distinct xs (erase x ys) (ground arith) others in
    omega (arith, shorter, length-erase x ys found)
  where
    others : (k : ℕ) → has k xs ≡ true → has k (erase x ys) ≡ true
    others k h =
        has-erase x k ys (sub k (ground arith))
          (elim (Bool-cases (k == x)) [ inl e ↦ absurd (ground arith) | inr e ↦ e ])

-- The numbers below `n`.
abbrev upto : ℕ → List ℕ
upto zero = []
upto (suc n) = n ∷ upto n

length-upto : (n : ℕ) → length (upto n) ≡ n
length-upto zero = refl
length-upto (suc n) = ap suc (length-upto n)

has-upto : (i n : ℕ) → i < n → has i (upto n) ≡ true
has-upto i zero h = absurd (omega arith)
has-upto i (suc n) h = elim (Bool-cases (i == n)) [
  | inl e ↦ ground arith
  | inr e ↦ ground (arith, has-upto i n (ground arith))
]

upto-below : (i n : ℕ) → has i (upto n) ≡ true → i < n
upto-below i zero h = cc
upto-below i (suc n) h = elim (Bool-cases (i == n)) [
  | inl e ↦ ground arith
  | inr e ↦ let below = upto-below i n (ground arith) in omega (arith, below)
]

distinct-upto : (n : ℕ) → distinct (upto n) ≡ true
distinct-upto zero = refl
distinct-upto (suc n) = elim (Bool-cases (has n (upto n))) [
  | inl h ↦ let below = upto-below n n h in absurd (omega (arith, below))
  | inr h ↦ ground (arith, distinct-upto n)
]

-- Distinct numbers below `n` are `n` many exactly if none is missing.
complete_iff :
    (is : List ℕ) (n : ℕ)
    → distinct is ≡ true
    → ((k : ℕ) → has k is ≡ true → k < n)
    → (length is ≡ n) ↔ ((i : ℕ) → i < n → has i is ≡ true)
complete_iff is n d below = (all_there, enough)
  where
    all_there : length is ≡ n → (i : ℕ) → i < n → has i is ≡ true
    all_there e i h = elim (Bool-cases (has i is)) [
      | inl there ↦ there
      | inr missing ↦
          let fewer = length-distinct (i ∷ is) (upto n) (ground arith) (fit i h) in
          absurd (omega (arith, fewer, e, length-upto n))
    ]
      where
        fit : (i : ℕ) → i < n → (k : ℕ) → has k (i ∷ is) ≡ true → has k (upto n) ≡ true
        fit i h k m = elim (Bool-cases (k == i)) [
          | inl e ↦ has-upto k n (ground arith)
          | inr e ↦ has-upto k n (below k (ground arith))
        ]

    enough : ((i : ℕ) → i < n → has i is ≡ true) → length is ≡ n
    enough every =
        let most = length-distinct is (upto n) d (λ k m. has-upto k n (below k m)) in
        let least =
          length-distinct (upto n) is (distinct-upto n) (λ k m. every k (upto-below k n m)) in
        omega (arith, most, least, length-upto n)

length-map-to_string : (is : List ℕ) → length (map to_string is) ≡ length is
length-map-to_string [] = refl
length-map-to_string (i ∷ is) = ap suc (length-map-to_string is)

module _ (h : Host) where
  open h use {State, opendir, readdir_all}

  -- If a directory lists, besides names that begin with a dot, the printed indices of some parts,
  -- each once and all below the number of parts, which is less than 2 ^ 31, then the test whether
  -- all parts have arrived is true exactly if the index of no part is missing.
  pub all_part_arrived_iff :
      (dir : Bytes) (shard d : ℕ) (s u t : State) (names : List Bytes) (is : List ℕ)
      → opendir (c_str dir) s ≡ (some d, u)
      → readdir_all d u ≡ (names, t)
      → visible names ≡ map to_string is
      → distinct is ≡ true
      → ((k : ℕ) → has k is ≡ true → k < shard)
      → shard < 2 ^ 31
      → (arrived : Bool) × (all_part_arrived h dir shard s ≡ some (arrived, t))
        × ((arrived ≡ true) ↔ ((i : ℕ) → i < shard → has i is ≡ true))
  unfolding all_part_arrived ls_dir
  all_part_arrived_iff dir shard d s u t names is opened listed shown once below small = (
    as_size shard == length (map to_string is),
    rw (opened, listed, shown),
    (λ e. (complete_iff is shard once below).0 (counted e), λ every. matched every),
  )
    where
      counted : (as_size shard == length (map to_string is)) ≡ true → length is ≡ shard
      counted e = ground (arith, length-map-to_string is)

      matched :
          ((i : ℕ) → i < shard → has i is ≡ true)
          → (as_size shard == length (map to_string is)) ≡ true
      matched every =
          let e = (complete_iff is shard once below).1 every in
          ground (arith, length-map-to_string is)
