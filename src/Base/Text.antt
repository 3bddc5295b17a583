-- ===== src/Base/Text.antt =====
-- `std::string` and C strings as lists of bytes.
use Prim.Native.Nat.{ℕ, zero, suc, ◌+◌, ◌-◌, ◌*◌, ◌/◌, ◌%◌, ◌<◌}
use Prim.Native.Char.{code}
use Prim.Native.String.{String}
use mathlib.Core.Path.{◌≡◌, refl, sym, ap, ◌∙◌}
use mathlib.Core.Logic.{◌≢◌, inl, inr}
use mathlib.Core.Bool.{Bool, true, false, ◌&&◌}
use mathlib.Core.List.{List, [], ◌∷◌, ◌++◌}
use native.Mathlib.Omega.{arith}
use network_disk_server.Base.Tests.{◌==◌, if◌then◌else◌, Bool-cases}

abbrev pub Bytes : Type 0
Bytes = List ℕ

-- The bytes of an ASCII literal. `String` has its own `[]` and `∷`.
abbrev pub codes : String → Bytes
codes String.[] = []
codes (String.◌∷◌ c s) = code c ∷ codes s

-- What a C function sees of a string: the bytes before the first NUL.
unfoldable pub c_str : Bytes → Bytes
c_str [] = []
c_str (c ∷ s) = if c == 0 then [] else c ∷ c_str s

-- The decimal digits of `n` in front of `out`; each round divides by ten.
digits : ℕ → ℕ → Bytes → Bytes
digits zero n out = out
digits (suc fuel) n out =
    let more = digits fuel (n / 10) ((b'0' + n % 10) ∷ out) in
    if n / 10 == 0 then (b'0' + n % 10) ∷ out else more

-- `std::to_string` of an unsigned number; `n + 1` rounds are enough, since each at least halves it.
unfoldable pub to_string : ℕ → Bytes
unfolding digits
to_string n = digits (n + 1) n []

-- `a == b` on `std::string`
unfoldable pub bytes_eq : Bytes → Bytes → Bool
bytes_eq [] [] = true
bytes_eq (a ∷ s) (b ∷ t) = a == b && bytes_eq s t
bytes_eq _ _ = false

pub bytes_eq_sound : (s t : Bytes) → bytes_eq s t ≡ true → s ≡ t
unfolding bytes_eq
bytes_eq_sound [] [] h = refl
bytes_eq_sound [] (b ∷ t) h = cc
bytes_eq_sound (a ∷ s) [] h = cc
bytes_eq_sound (a ∷ s) (b ∷ t) h = ground (arith, bytes_eq_sound s t)

pub bytes_eq_self : (s : Bytes) → bytes_eq s s ≡ true
unfolding bytes_eq
bytes_eq_self [] = refl
bytes_eq_self (a ∷ s) = ground (arith, bytes_eq_self s)

-- No byte of the text is `k`.
abbrev pub Lacks : ℕ → Bytes → Type 0
Lacks k [] = Unit {0}
Lacks k (c ∷ s) = (c ≢ k) × Lacks k s

pub c_str_lacking : (s : Bytes) → Lacks 0 s → c_str s ≡ s
unfolding c_str
c_str_lacking [] h = refl
c_str_lacking (c ∷ s) h = ground (arith, c_str_lacking s h.1)

-- Text without a NUL comes through, and what follows it is read on.
pub c_str-append : (s t : Bytes) → Lacks 0 s → c_str (s ++ t) ≡ s ++ c_str t
unfolding c_str
c_str-append [] t h = refl
c_str-append (c ∷ s) t h = ground (arith, c_str-append s t h.1)

pub c_str-Lacks : (s : Bytes) → Lacks 0 (c_str s)
unfolding c_str
c_str-Lacks [] = tt
c_str-Lacks (c ∷ s) = ground (arith, c_str-Lacks s)

abbrev tail_of : Bytes → Bytes
tail_of [] = []
tail_of (c ∷ s) = s

-- The first separator ends a text that has none.
pub separator_ends :
    (k : ℕ) (u v s t : Bytes)
    → Lacks k u
    → Lacks k v
    → u ++ (k ∷ s) ≡ v ++ (k ∷ t)
    → (u ≡ v) × (s ≡ t)
separator_ends k [] [] s t hu hv e = (refl, ap tail_of e)
separator_ends k [] (d ∷ v) s t hu hv e = absurd (ground arith)
separator_ends k (c ∷ u) [] s t hu hv e = absurd (ground arith)
separator_ends k (c ∷ u) (d ∷ v) s t hu hv e =
    let (same, rest) = separator_ends k u v s t hu.1 hv.1 (ap tail_of e) in (ground arith, rest)

-- The number that a text of decimal digits stands for, behind the digits of `acc`.
abbrev pub value : Bytes → ℕ → ℕ
value [] acc = acc
value (c ∷ s) acc = value s (acc * 10 + (c - b'0'))

below_ten : (n : ℕ) → (n / 10 == 0) ≡ true → n < 10
below_ten n h = ground arith

tenth_below : (fuel n : ℕ) → n < suc fuel → (n / 10 == 0) ≡ false → n / 10 < fuel
tenth_below fuel n h z = ground arith

value-digits : (fuel n : ℕ) (out : Bytes) → n < fuel → value (digits fuel n out) 0 ≡ value out n
unfolding digits
value-digits zero n out h = absurd (omega arith)
value-digits (suc fuel) n out h = elim (Bool-cases (n / 10 == 0)) [
  | inl z ↦ rw z (
      ap (value out)
        (let e : 0 * 10 + (b'0' + n % 10 - b'0') ≡ n = omega (arith, below_ten n z) in e))
  | inr z ↦ rw z (
      value-digits fuel (n / 10) ((b'0' + n % 10) ∷ out) (tenth_below fuel n h z)
      ∙ ap (value out) (let e : n / 10 * 10 + (b'0' + n % 10 - b'0') ≡ n = omega arith in e))
]

pub value-to_string : (n : ℕ) → value (to_string n) 0 ≡ n
unfolding to_string
value-to_string n = value-digits (n + 1) n [] (omega arith)

-- Different numbers are printed in different ways.
pub to_string_injective : (m n : ℕ) → to_string m ≡ to_string n → m ≡ n
to_string_injective m n e = sym (value-to_string m) ∙ ap (λ s. value s 0) e ∙ value-to_string n

digits-Lacks : (k fuel n : ℕ) (out : Bytes) → k < b'0' → Lacks k out → Lacks k (digits fuel n out)
unfolding digits
digits-Lacks k zero n out h l = l
digits-Lacks k (suc fuel) n out h l =
    let more : Lacks k ((b'0' + n % 10) ∷ out) = ((λ e. omega arith), l) in
    elim (Bool-cases (n / 10 == 0)) [
      | inl z ↦ rw z more
      | inr z ↦ rw z (digits-Lacks k fuel (n / 10) ((b'0' + n % 10) ∷ out) h more)
    ]

-- Digits are printed, and nothing that comes before them in ASCII.
pub to_string-Lacks : (k n : ℕ) → k < b'0' → Lacks k (to_string n)
unfolding to_string
to_string-Lacks k n h = digits-Lacks k (n + 1) n [] h tt
