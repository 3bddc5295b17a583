-- ===== src/FileSys/Rounds.antt =====
-- The loop of `FileSys::Write` in code/src/file_sys.cpp ends.
use network_disk_server.Base.{
  ℕ, zero, suc, ◌+◌, ◌-◌, ◌*◌, ◌≤◌, ◌<◌, ◌≡◌, refl, some, arith, take, ltb, ltb→lt, ltb-false→le,
  inl, inr, Bool-cases,
}
use network_disk_server.Base.Text.{Bytes}
use network_disk_server.Host.{Host}
use network_disk_server.FileSys.{write_loop, write_len}

module _ (h : Host) (fd : ℕ) (s : Bytes) where
  open h use {State}

  -- The runs of `while (len > WRITE_LEN) { write(fd, s, WRITE_LEN); len -= WRITE_LEN; }` and the
  -- write after it, from a length and a state to a state.
  pub data Runs : ℕ → State → State → Type 0 where
    leaves : {len : ℕ} {t : State} → len ≤ write_len → Runs len t (h.write fd (take len s) t)
    goes_on :
        {len : ℕ} {t u : State}
        → write_len < len
        → Runs (len - write_len) (h.write fd (take write_len s) t) u
        → Runs len t u

  -- With as much fuel as there are full blocks in `len` bytes, the model's loop returns the end of a
  -- run of the source's loop; so that loop ends from every state, after at most `len / 4096` rounds.
  pub write_loop-Runs :
      (fuel len : ℕ) (t : State)
      → len ≤ write_len * (fuel + 1)
      → (u : State) × (write_loop h fuel fd s len t ≡ some (tt, u)) × Runs len t u
  unfolding write_loop
  write_loop-Runs zero len t enough = (h.write fd (take len s) t, refl, leaves (omega arith))
  write_loop-Runs (suc fuel) len t enough = elim (Bool-cases (ltb write_len len)) [
    | inl more ↦
        let (u, ran, run) =
          write_loop-Runs fuel (len - write_len) (h.write fd (take write_len s) t) (omega arith) in
        (u, rw more ran, goes_on (ltb→lt write_len len more) run)
    | inr less ↦ (h.write fd (take len s) t, rw less refl, leaves (ltb-false→le write_len len less))
  ]
