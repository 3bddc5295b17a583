-- ===== src/FileSys.antt =====
-- code/src/file_sys.cpp and code/include/file_sys.h: the methods of `FileSys`.
pub mod Writing
pub mod Rounds
use network_disk_server.Base.{
  ℕ, zero, suc, ◌-◌, Bool, true, false, not, none, some, List, [], ◌∷◌, ◌++◌, ltb, ◌==◌,
  if◌then◌else◌, length, take,
}
use network_disk_server.Base.Int.{ℤ, pos, negsuc, minus_one, to_int32}
use network_disk_server.Base.Fallible.{M, pure, call, act, look, ◌>>=◌, ◌>>◌}
use network_disk_server.Base.Text.{Bytes, c_str}
use network_disk_server.Host.{Host, eexist}

-- `WRITE_LEN`
abbrev pub write_len : ℕ
write_len = 4096

-- `res.push_back` for each entry whose name does not begin with a dot. The first byte of an empty
-- name is its NUL.
unfoldable pub visible : List Bytes → List Bytes
visible [] = []
visible ((c ∷ name) ∷ names) = if c == b'.' then visible names else (c ∷ name) ∷ visible names
visible ([] ∷ names) = [] ∷ visible names

module _ (h : Host) where
  open h use {
    State, opendir, readdir_all, open_create, accessible, symlink, remove, write as sys_write,
    close,
  }

  -- `if (mkdir(...) == -1 && errno != EEXIST) return -1; return 0;`
  unfoldable pub mkdir : Bytes → M State ℤ
  mkdir dir_name = do
    r ← call (h.mkdir (c_str dir_name))
    elim r [
      | none ↦ pure (pos 0)
      | some errno ↦ if not (errno == eexist) then pure minus_one else pure (pos 0)
    ]

  -- The stream that opendir gives is not closed.
  unfoldable pub exist_dir : Bytes → M State Bool
  exist_dir dir_name = do
    r ← call (opendir (c_str dir_name))
    elim r [ none ↦ pure false | some _ ↦ pure true ]

  unfoldable pub exist_file : Bytes → M State Bool
  exist_file file_path = look (accessible (c_str file_path))

  -- The code, and the names that are appended to the caller's vector `res`.
  unfoldable pub ls_dir : Bytes → List Bytes → M State (ℤ × List Bytes)
  unfolding visible
  ls_dir dir_name res = do
    r ← call (opendir (c_str dir_name))
    elim r [
      | none ↦ pure (minus_one, res)
      | some dir ↦ call (readdir_all dir) >>= λ names. pure (pos 0, res ++ visible names)
    ]

  -- `while (len > WRITE_LEN) { write(fd, s, WRITE_LEN); len -= WRITE_LEN; } write(fd, s, len);`
  -- Each round takes at least one byte off `len`, so `len` rounds of fuel are enough.
  unfoldable pub write_loop : ℕ → ℕ → Bytes → ℕ → M State (Unit {0})
  write_loop zero fd s len = act (sys_write fd (take len s))
  write_loop (suc fuel) fd s len =
      let more = act (sys_write fd (take write_len s)) >> write_loop fuel fd s (len - write_len) in
      if ltb write_len len then more else act (sys_write fd (take len s))

  -- The loop and the write after it. A negative `len` skips the loop; as the count of a write it is
  -- more than SSIZE_MAX, which Linux refuses (EINVAL), and the result is not looked at.
  unfoldable pub write_all : ℕ → Bytes → ℤ → M State (Unit {0})
  write_all fd s (pos len) = write_loop len fd s len
  write_all fd s (negsuc len) = pure tt

  -- `int len = strlen(s)`: the length is cut to 32 bits.
  unfoldable pub write : Bytes → Bytes → M State ℤ
  unfolding write_loop write_all
  write str path = do
    let s = c_str str
    let len = to_int32 (pos (length s))
    r ← call (open_create (c_str path))
    elim r [ none ↦ pure minus_one | some fd ↦ do write_all fd s len; act (close fd); pure (pos 0) ]

  -- `return remove(path.c_str())`
  unfoldable pub delete_file : Bytes → M State ℤ
  delete_file path = do
    r ← call (remove (c_str path))
    elim r [ none ↦ pure (pos 0) | some errno ↦ pure minus_one ]

  unfoldable pub link : Bytes → Bytes → M State ℤ
  link src_path dst_path = do
    r ← call (symlink (c_str src_path) (c_str dst_path))
    elim r [
      | none ↦ pure (pos 0)
      | some errno ↦ if not (errno == eexist) then pure minus_one else pure (pos 0)
    ]
