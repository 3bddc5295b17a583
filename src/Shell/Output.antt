-- ===== src/Shell/Output.antt =====
-- What `ShellOut` and `Md5Sum` of code/src/public.cpp return for what a command prints.
use network_disk_server.Base.{
  ℕ, zero, suc, ◌+◌, ◌≤◌, ◌<◌, ◌≡◌, refl, sym, ap, ◌∙◌, none, some, [], ◌∷◌, ◌++◌, append_assoc,
  arith, length, take, drop, length-append, length-drop, take-append_left, drop-append_add,
  drop-drop, take-append-drop, ltb, ge→ltb, ltb-false→le, false, Bool-cases, inl, inr,
}
use network_disk_server.Base.Int.{pos}
use network_disk_server.Base.Fallible.{>>=-run, >>=-fault}
use network_disk_server.Base.Text.{Bytes, codes, c_str, Lacks}
use network_disk_server.Host.{Host}
use network_disk_server.Shell.{
  splice, read_loop, string_of, bytes_from, shell_out, md5_sum, shellout_max_len,
}

splice-append :
    (pre tail chunk : Bytes)
    → splice (pre ++ tail) (length pre) chunk ≡ (pre ++ chunk) ++ drop (length chunk) tail
unfolding splice
splice-append pre tail chunk =
    rw (take-append_left pre tail, drop-append_add pre tail (length chunk), append_assoc)

pub length-bytes_from : (f : ℕ → ℕ) (i n : ℕ) → length (bytes_from f i n) ≡ n
unfolding bytes_from
length-bytes_from f i zero = refl
length-bytes_from f i (suc n) = ap suc (length-bytes_from f (suc i) n)

-- One round on output that is not empty.
read_loop-round :
    (fuel c : ℕ) (rest pre tail : Bytes)
    → let chunk = take 10 (c ∷ rest) in
      length chunk ≤ length tail
      → read_loop (suc fuel) (c ∷ rest) (pre ++ tail) (length pre)
        ≡ read_loop fuel
            (drop 10 (c ∷ rest))
            ((pre ++ chunk) ++ drop (length chunk) tail)
            (length (pre ++ chunk))
unfolding read_loop
read_loop-round fuel c rest pre tail h =
    rw (splice-append pre tail (take 10 (c ∷ rest)), length-append pre (take 10 (c ∷ rest)), fits)
      (ground arith)
  where
    fits : ltb (length (pre ++ tail)) (length pre + length (take 10 (c ∷ rest))) ≡ false
    fits = ge→ltb _ _ (omega (arith, length-append pre tail))

-- The loop copies the output into the array from the index on, if it fits.
read_loop-copies :
    (fuel : ℕ) (output pre tail : Bytes)
    → length output < fuel
    → length output ≤ length tail
    → read_loop fuel output (pre ++ tail) (length pre)
      ≡ some (pre ++ (output ++ drop (length output) tail))
unfolding read_loop
read_loop-copies zero output pre tail h k = absurd (omega arith)
read_loop-copies (suc fuel) [] pre tail h k = refl
read_loop-copies (suc fuel) (c ∷ rest) pre tail h k =
    read_loop-round fuel c rest pre tail chunk_fits
    ∙ read_loop-copies fuel left (pre ++ chunk) (drop (length chunk) tail) (omega (arith, sizes))
        (omega (arith, sizes, length-drop (length chunk) tail))
    ∙ ap some joined
  where
    chunk : Bytes
    chunk = take 10 (c ∷ rest)

    left : Bytes
    left = drop 10 (c ∷ rest)

    sizes : (length chunk + length left ≡ length (c ∷ rest)) × (0 < length chunk)
    sizes =
        (sym (length-append chunk left) ∙ ap length (take-append-drop 10 (c ∷ rest)), omega arith)

    chunk_fits : length chunk ≤ length tail
    chunk_fits = omega (arith, sizes)

    joined :
        (pre ++ chunk) ++ (left ++ drop (length left) (drop (length chunk) tail))
        ≡ pre ++ ((c ∷ rest) ++ drop (length (c ∷ rest)) tail)
    joined =
        rw (drop-drop (length chunk) (length left) tail, sizes.0, append_assoc)
          (ap (λ l. pre ++ l)
            (sym (append_assoc chunk left (drop (length (c ∷ rest)) tail))
              ∙ ap (λ l. l ++ drop (length (c ∷ rest)) tail) (take-append-drop 10 (c ∷ rest))))

-- The array after the loop, from its start.
read_loop-output :
    (output tail : Bytes)
    → length output ≤ length tail
    → read_loop (length output + 1) output tail 0 ≡ some (output ++ drop (length output) tail)
read_loop-output output tail h = read_loop-copies (length output + 1) output [] tail (omega arith) h

-- Output that does not fit is written past the end of the array.
read_loop-overflows :
    (fuel : ℕ) (output pre tail : Bytes)
    → length output < fuel
    → length tail < length output
    → read_loop fuel output (pre ++ tail) (length pre) ≡ none
unfolding read_loop
read_loop-overflows zero output pre tail h k = absurd (omega arith)
read_loop-overflows (suc fuel) [] pre tail h k = absurd (omega arith)
read_loop-overflows (suc fuel) (c ∷ rest) pre tail h k =
    elim (Bool-cases (ltb (length (pre ++ tail)) (length pre + length chunk))) [
      | inl over ↦ rw over (ground arith)
      | inr fits ↦
          let chunk_fits : length chunk ≤ length tail =
            omega (arith, length-append pre tail, ltb-false→le _ _ fits) in
          read_loop-round fuel c rest pre tail chunk_fits
          ∙ read_loop-overflows fuel left (pre ++ chunk) (drop (length chunk) tail)
              (omega (arith, sizes)) (omega (arith, sizes, length-drop (length chunk) tail))
    ]
  where
    chunk : Bytes
    chunk = take 10 (c ∷ rest)

    left : Bytes
    left = drop 10 (c ∷ rest)

    sizes : (length chunk + length left ≡ length (c ∷ rest)) × (0 < length chunk)
    sizes =
        (sym (length-append chunk left) ∙ ap length (take-append-drop 10 (c ∷ rest)), omega arith)

Lacks-append : (k : ℕ) (s t : Bytes) → Lacks k s → Lacks k t → Lacks k (s ++ t)
Lacks-append k [] t hs ht = ht
Lacks-append k (c ∷ s) t hs ht = (hs.0, Lacks-append k s t hs.1 ht)

-- Memory that is zeroed reads as the empty text everywhere.
pub string_of-zeroed :
    (f : ℕ → ℕ) (i n k : ℕ)
    → ((j : ℕ) → f j ≡ 0)
    → k < n
    → string_of (drop k (bytes_from f i n)) ≡ some []
unfolding string_of bytes_from
string_of-zeroed f i zero k z h = absurd (omega arith)
string_of-zeroed f i (suc n) zero z h = ground (arith, z i)
string_of-zeroed f i (suc n) (suc k) z h = string_of-zeroed f (suc i) n k z (omega arith)

pub string_of-append :
    (s t text : Bytes) → Lacks 0 s → string_of t ≡ some text → string_of (s ++ t) ≡ some (s ++ text)
unfolding string_of
string_of-append [] t text clean e = e
string_of-append (c ∷ s) t text clean e = rw (string_of-append s t text clean.1 e) (ground arith)

module _ (h : Host) where
  open h use {State, popen, stale}

  -- The array of `ShellOut` as it is declared.
  abbrev pub fresh_array : State → Bytes
  fresh_array s = bytes_from (stale s) 0 shellout_max_len

  module _ (cmd res output : Bytes) (s s' : State)
      (prints : popen (c_str cmd) s ≡ (some output, s')) where
    -- Output of at most 256 bytes is returned with whatever followed it in the array, up to a NUL.
    pub shell_out-fits :
        (text : Bytes)
        → length output ≤ shellout_max_len
        → string_of (output ++ drop (length output) (fresh_array s')) ≡ some text
        → shell_out h cmd res s ≡ some ((pos 0, text), s')
    unfolding shell_out
    shell_out-fits text fits ends =
        rw (prints, read_loop-output output (fresh_array s') (rw length-bytes_from fits), ends)

    pub shell_out-overflows : shellout_max_len < length output → shell_out h cmd res s ≡ none
    unfolding shell_out
    shell_out-overflows over = rw (
      prints,
      read_loop-overflows (length output + 1) output [] (fresh_array s') (omega arith)
          (omega (arith, length-bytes_from (stale s') 0 shellout_max_len)),
    )

    -- A command that prints nothing gives back what was in the array up to a NUL, which need not be
    -- the empty text.
    pub shell_out-silent :
        (text : Bytes)
        → output ≡ []
        → string_of (fresh_array s') ≡ some text
        → shell_out h cmd res s ≡ some ((pos 0, text), s')
    shell_out-silent text silent ends =
        shell_out-fits text (rw silent (omega arith)) (rw silent ends)

  -- A digest of 32 bytes in front of a line that fits comes through, whatever is in the array,
  -- provided that a NUL follows the line there.
  pub md5_sum-digest :
      (file_path md5 digest line tail : Bytes) (s s' : State)
      → popen (c_str (codes "md5sum " ++ file_path)) s ≡ (some (digest ++ line), s')
      → length digest ≡ 32
      → Lacks 0 digest
      → Lacks 0 line
      → length (digest ++ line) ≤ shellout_max_len
      → string_of (drop (length (digest ++ line)) (fresh_array s')) ≡ some tail
      → md5_sum h file_path md5 s ≡ some ((pos 0, digest), s')
  unfolding md5_sum
  md5_sum-digest file_path md5 digest line tail s s' prints size clean clean' fits ends =
      >>=-run (shell_out h (codes "md5sum " ++ file_path) []) _
        (shell_out-fits _ [] (digest ++ line) s s' prints ((digest ++ line) ++ tail) fits read)
      ∙ ap (λ d. some ((pos 0, d), s')) front
    where
      front : take 32 ((digest ++ line) ++ tail) ≡ digest
      front = rw (append_assoc digest line tail, ← size) (take-append_left digest (line ++ tail))

      read :
          string_of ((digest ++ line) ++ drop (length (digest ++ line)) (fresh_array s'))
          ≡ some ((digest ++ line) ++ tail)
      read = string_of-append (digest ++ line) _ tail (Lacks-append 0 digest line clean clean') ends

  -- If md5sum prints more than 256 bytes, `Md5Sum` writes past the end of its array.
  pub md5_sum-overflows :
      (file_path md5 output : Bytes) (s s' : State)
      → popen (c_str (codes "md5sum " ++ file_path)) s ≡ (some output, s')
      → shellout_max_len < length output
      → md5_sum h file_path md5 s ≡ none
  unfolding md5_sum
  md5_sum-overflows file_path md5 output s s' prints over =
      >>=-fault (shell_out h (codes "md5sum " ++ file_path) []) _
        (shell_out-overflows _ [] output s s' prints over)
