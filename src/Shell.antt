-- ===== src/Shell.antt =====
-- code/src/public.cpp and code/include/public.h: `ShellOut`, `Md5Sum` and the message types.
pub mod Output
use network_disk_server.Base.{
  ℕ, zero, suc, ◌+◌, Option, none, some, [], ◌∷◌, ◌++◌, ltb, ◌==◌, if◌then◌else◌, length, take,
  drop,
}
use network_disk_server.Base.Int.{ℤ, pos, minus_one, nonzero}
use network_disk_server.Base.Fallible.{M, pure, fault, call, look, ◌>>=◌}
use network_disk_server.Base.Text.{Bytes, codes, c_str}
use network_disk_server.Host.{Host}

-- `MSG_TYPE`
pub data MsgType : Type 0 where
  register login exit share delete upload download show : MsgType

-- `static_cast<int>`
abbrev pub msg_code : MsgType → ℕ
msg_code register = 0
msg_code login = 1
msg_code exit = 2
msg_code share = 3
msg_code delete = 4
msg_code upload = 5
msg_code download = 6
msg_code show = 7

-- `SHELLOUT_MAX_LEN`
abbrev pub shellout_max_len : ℕ
shellout_max_len = 256

-- The first `n` bytes of an array from index `i` on.
unfoldable pub bytes_from : (ℕ → ℕ) → ℕ → ℕ → Bytes
bytes_from f i zero = []
bytes_from f i (suc n) = f i ∷ bytes_from f (suc i) n

-- Overwrites the array from an index on.
unfoldable pub splice : Bytes → ℕ → Bytes → Bytes
splice buffer i chunk = take i buffer ++ (chunk ++ drop (i + length chunk) buffer)

-- `string(out)`: the bytes before the first NUL; an array without one is read past its end.
unfoldable pub string_of : Bytes → Option Bytes
string_of [] = none
string_of (c ∷ s) =
    let rest = string_of s in
    if c == 0 then some [] else elim rest [ none ↦ none | some t ↦ some (c ∷ t) ]

-- `do { nread = fread(out + write_index, 1, 10, fp); write_index += nread; } while (nread);`
-- A round takes at least one byte of the output, so one round more than it has bytes is enough.
-- `none` is a write past the end of the array.
unfoldable pub read_loop : ℕ → Bytes → Bytes → ℕ → Option Bytes
unfolding splice
read_loop zero output out write_index = some out
read_loop (suc fuel) output out write_index =
    let nread = length (take 10 output) in
    let next =
      read_loop fuel (drop 10 output) (splice out write_index (take 10 output))
        (write_index + nread) in
    let checked = if ltb (length out) (write_index + nread) then none else next in
    if nread == 0 then some out else checked

module _ (h : Host) where
  open h use {State, popen, stale}

  abbrev pub or_fault : Option Bytes → M State Bytes
  or_fault none = fault
  or_fault (some s) = pure s

  -- The return code, and the new value of the reference `res`.
  unfoldable pub shell_out : Bytes → Bytes → M State (ℤ × Bytes)
  unfolding read_loop string_of bytes_from
  shell_out cmd res = do
    r ← call (popen (c_str cmd))
    elim r [
      | none ↦ pure (minus_one, res)
      | some output ↦ do
        garbage ← look stale
        out ←
            or_fault
              (read_loop (length output + 1) output (bytes_from garbage 0 shellout_max_len) 0)
        text ← or_fault (string_of out)
        pure (pos 0, text)
    ]

  -- The return code, and the new value of the reference `md5`.
  unfoldable pub md5_sum : Bytes → Bytes → M State (ℤ × Bytes)
  md5_sum file_path md5 = do
    (code, res) ← shell_out (codes "md5sum " ++ file_path) []
    if nonzero code then pure (minus_one, md5) else pure (pos 0, take 32 res)
