-- ===== src/FileSys/Writing.antt =====
-- What `FileSys::Write` of code/src/file_sys.cpp leaves in the file.
use network_disk_server.Base.{
  ℕ, zero, suc, ◌-◌, ◌*◌, ◌/◌, ◌≤◌, ◌<◌, ◌^◌, ◌≡◌, ◌≢◌, refl, sym, ap, ◌∙◌, some, [], ◌∷◌, ◌++◌,
  append_assoc, arith, length, take, get_elem?, length-take, get_elem?-append_right, ltb, ltb→lt,
  ltb-false→le, Bool-cases, inl, inr,
}
use network_disk_server.Base.Int.{ℤ, pos, negsuc, to_int32, to_int32-small}
use network_disk_server.Base.Text.{Bytes, c_str}
use network_disk_server.Host.{Host}
use network_disk_server.FileSys.{write_loop, write_all, write, write_len}

-- The text `n` times in a row.
abbrev pub repeat : ℕ → Bytes → Bytes
repeat zero s = []
repeat (suc n) s = s ++ repeat n s

-- What the loop writes for a string of `len` bytes: its first 4096 bytes in each round, and then
-- its first bytes again, as many as are left.
pub stutter : ℕ → ℕ → Bytes → ℕ → Bytes
stutter size rounds s len = repeat rounds (take size s) ++ take (len - size * rounds) s

stutter-zero : (size : ℕ) (s : Bytes) (len : ℕ) → stutter size 0 s len ≡ take len s
unfolding stutter
stutter-zero size s len = ap (λ k. take k s) (let e : len - size * 0 ≡ len = omega arith in e)

stutter-suc :
    (size rounds : ℕ) (s : Bytes) (len : ℕ)
    → stutter size (suc rounds) s len ≡ take size s ++ stutter size rounds s (len - size)
unfolding stutter
stutter-suc size rounds s len =
    append_assoc (take size s) _ _
    ∙ ap (λ k. take size s ++ (repeat rounds (take size s) ++ take k s))
        (let e : len - size * suc rounds ≡ len - size - size * rounds = omega arith in e)

-- The rounds of the loop for a string of `len` bytes.
abbrev pub rounds_of : ℕ → ℕ
rounds_of len = (len - 1) / write_len

-- A write appends its bytes to what has gone through the descriptor; it writes all of them. Opening
-- a file starts at its front, and closing it changes nothing in it.
pub record IsAppending (h : Host) (sent : h.State → ℕ → Bytes) : Type 0 where
  pub sent-write : (s : h.State) (fd : ℕ) (b : Bytes) → sent (h.write fd b s) fd ≡ sent s fd ++ b
  pub sent-open :
      (s s' : h.State) (path : Bytes) (fd : ℕ)
      → h.open_create path s ≡ (some fd, s')
      → sent s' fd ≡ []
  pub sent-close : (s : h.State) (fd : ℕ) → sent (h.close fd s) fd ≡ sent s fd

stutter-head :
    (size rounds c : ℕ) (s : Bytes) (len : ℕ)
    → 0 < size
    → 0 < len
    → get_elem? (stutter size rounds (c ∷ s) len) 0 ≡ some c
unfolding stutter
stutter-head zero rounds c s len h k = absurd (omega arith)
stutter-head (suc size) (suc rounds) c s len h k = refl
stutter-head (suc size) zero c s zero h k = absurd (omega arith)
stutter-head (suc size) zero c s (suc len) h k =
    ap (λ n. get_elem? (take n (c ∷ s)) 0) (stutter-zero-len (suc size) (suc len))
  where
    stutter-zero-len : (n m : ℕ) → m - n * 0 ≡ m
    stutter-zero-len n m = omega arith

-- Where the second block should stand, the text begins again.
stutter-repeats :
    (s : Bytes) (n : ℕ)
    → write_len < length s
    → write_len < n
    → get_elem? (stutter write_len (rounds_of n) s n) write_len ≡ get_elem? s 0
stutter-repeats [] n k more = absurd (omega arith)
stutter-repeats (c ∷ s) n k more =
    ap (λ r. get_elem? (stutter write_len r (c ∷ s) n) write_len)
      (let e : rounds_of n ≡ suc (rounds_of n - 1) = omega arith in e)
    ∙ ap (λ b. get_elem? b write_len) (stutter-suc write_len (rounds_of n - 1) (c ∷ s) n)
    ∙ ap (λ n. get_elem? (take write_len (c ∷ s) ++ rest) n) (sym full)
    ∙ get_elem?-append_right (take write_len (c ∷ s)) rest
    ∙ stutter-head write_len (rounds_of n - 1) c s (n - write_len) (omega arith) (omega arith)
  where
    rest : Bytes
    rest = stutter write_len (rounds_of n - 1) (c ∷ s) (n - write_len)

    full : length (take write_len (c ∷ s)) ≡ write_len
    full = omega (arith, length-take write_len (c ∷ s))

-- Fewer bytes than a block come from the front.
stutter-less : (s : Bytes) (n : ℕ) → n ≤ write_len → stutter write_len (rounds_of n) s n ≡ take n s
stutter-less s n k =
    ap (λ r. stutter write_len r s n) (let e : rounds_of n ≡ 0 = omega arith in e)
    ∙ stutter-zero write_len s n

module _ (h : Host) (sent : h.State → ℕ → Bytes) (w : IsAppending h sent) where
  open h use {State}

  last_write :
      (fd : ℕ) (s : Bytes) (len : ℕ) (t : State)
      → len ≤ write_len
      → sent (h.write fd (take len s) t) fd ≡ sent t fd ++ stutter write_len (rounds_of len) s len
  last_write fd s len t k =
      w.sent-write t fd (take len s)
      ∙ ap (λ b. sent t fd ++ b)
          (sym (stutter-zero write_len s len)
            ∙ ap (λ r. stutter write_len r s len) (let e : 0 ≡ rounds_of len = omega arith in e))

  next_write :
      (fd : ℕ) (s : Bytes) (len : ℕ) (t t' : State)
      → write_len < len
      → sent t' fd
        ≡ sent (h.write fd (take write_len s) t) fd
          ++ stutter write_len (rounds_of (len - write_len)) s (len - write_len)
      → sent t' fd ≡ sent t fd ++ stutter write_len (rounds_of len) s len
  next_write fd s len t t' k out =
      out
      ∙ ap (λ b. b ++ stutter write_len (rounds_of (len - write_len)) s (len - write_len))
          (w.sent-write t fd (take write_len s))
      ∙ append_assoc (sent t fd) (take write_len s) _
      ∙ ap (λ b. sent t fd ++ b)
          (sym (stutter-suc write_len (rounds_of (len - write_len)) s len)
            ∙ ap (λ r. stutter write_len r s len)
                (let e : suc (rounds_of (len - write_len)) ≡ rounds_of len = omega arith in e))

  -- The loop ends, and has sent the first bytes of the string over and over.
  write_loop-stutter :
      (fuel fd : ℕ) (s : Bytes) (len : ℕ) (t : State)
      → len ≤ fuel
      → (t' : State) × (write_loop h fuel fd s len t ≡ some (tt, t'))
        × (sent t' fd ≡ sent t fd ++ stutter write_len (rounds_of len) s len)
  unfolding write_loop
  write_loop-stutter zero fd s len t k =
      (h.write fd (take len s) t, refl, last_write fd s len t (omega arith))
  write_loop-stutter (suc fuel) fd s len t k = elim (Bool-cases (ltb write_len len)) [
    | inr last ↦ (
      h.write fd (take len s) t,
      rw last refl,
      last_write fd s len t (ltb-false→le write_len len last),
    )
    | inl more ↦
        let rest : len - write_len ≤ fuel = omega (arith, ltb→lt write_len len more) in
        let (t', run, out) =
          write_loop-stutter fuel fd s (len - write_len) (h.write fd (take write_len s) t) rest in
        (t', rw more run, next_write fd s len t t' (ltb→lt write_len len more) out)
  ]

  module _ (str path : Bytes) (fd : ℕ) (t t1 : State)
      (opened : h.open_create (c_str path) t ≡ (some fd, t1)) where
    abbrev text : Bytes
    text = c_str str

    -- What is sent for a length that is not negative, and for a negative one.
    unfoldable sends : ℤ → Bytes
    sends (pos n) = stutter write_len (rounds_of n) text n
    sends (negsuc n) = []

    write-sends :
        (z : ℤ)
        → to_int32 (pos (length text)) ≡ z
        → (t' : State) × (write h str path t ≡ some (pos 0, t')) × (sent t' fd ≡ sends z)
    unfolding write write_all sends
    write-sends (pos n) size =
        let (t2, run, out) = write_loop-stutter n fd text n t1 (omega arith) in
        (
          h.close fd t2,
          rw (opened, size) (ground (arith, run)),
          w.sent-close t2 fd
              ∙ out
              ∙ ap (λ b. b ++ stutter write_len (rounds_of n) text n)
                  (w.sent-open t t1 (c_str path) fd opened),
        )
    write-sends (negsuc n) size = (
      h.close fd t1,
      rw (opened, size) refl,
      w.sent-close t1 fd ∙ w.sent-open t t1 (c_str path) fd opened,
    )

    -- Where writes are complete (`IsAppending`), a `Write` that opens its file for a text with less
    -- than 2 ^ 31 bytes before its first NUL returns 0 after it has sent these bytes from the front
    -- again and again: one block of 4096 for each round of the loop, and then, from the front once
    -- more, as many bytes as are left.
    pub write-stutter :
        length text < 2 ^ 31
        → (t' : State) × (write h str path t ≡ some (pos 0, t'))
          × (sent t' fd ≡ stutter write_len (rounds_of (length text)) text (length text))
    unfolding sends
    write-stutter small = write-sends (pos (length text)) (to_int32-small (length text) small)

    -- What is sent for a long text is not the text, whatever its length is cut to.
    sends-differs :
        (z : ℤ)
        → write_len < length text
        → get_elem? text write_len ≢ get_elem? text 0
        → sends z ≢ text
    unfolding sends
    sends-differs (negsuc n) k differ same = absurd (omega (arith, ap length same))
    sends-differs (pos n) k differ same = elim (Bool-cases (ltb write_len n)) [
      | inl more ↦ differ (
          ap (λ b. get_elem? b write_len) (sym same)
          ∙ stutter-repeats text n k (ltb→lt write_len n more))
      | inr less ↦
          let few = ltb-false→le write_len n less in
          absurd (
            omega
              (arith, k, few, ap length (sym (stutter-less text n few) ∙ same), length-take n text))
    ]

    -- Where writes are complete and the file can be opened, a text with more than 4096 bytes before
    -- its first NUL does not arrive if its bytes 0 and 4096 differ, and `Write` still returns 0.
    pub write-long :
        write_len < length text
        → get_elem? text write_len ≢ get_elem? text 0
        → (t' : State) × (write h str path t ≡ some (pos 0, t')) × (sent t' fd ≢ text)
    write-long k differ =
        let (t', run, out) = write-sends (to_int32 (pos (length text))) refl in
        (t', run, λ same. sends-differs (to_int32 (pos (length text))) k differ (sym out ∙ same))
