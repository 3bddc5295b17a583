-- ===== src/Control/Dispatch.antt =====
-- Which messages `Control::Process` of code/src/short_connect/control.cpp serves.
use network_disk_server.Base.{
  ℕ, ◌≡◌, ◌⊎◌, inl, inr, true, false, Bool, none, some, [], ◌∷◌, Option-cases, arith,
}
use network_disk_server.Base.Int.{ℤ, pos}
use network_disk_server.Base.Text.{Bytes, codes, c_str}
use network_disk_server.Host.{Host}
use network_disk_server.Json.{Json}
use network_disk_server.Shell.{msg_code, register, login, exit}
use network_disk_server.Register
use network_disk_server.Mysql
use network_disk_server.Register.{View, send_response}
use network_disk_server.Control.{Control, init, process, dispatch, run_view, find_view, is_command}

module _ (h : Host) (j : Json) (usr_dir : Bytes) where
  open h use {State}
  open j use {Value, null, parse, member, as_int}

  -- A control as `Init` leaves it.
  abbrev pub Started : Control → Type 0
  Started control =
      (s t : State) × (done done' : Bool) × (init h done s ≡ some ((control, true, done'), t))

  only_register :
      (control : Control)
      → Started control
      → (view : View) × (control.view_map ≡ (msg_code register, view) ∷ [])
  unfolding init Register.init
  only_register control (s, t, done, done', e) = elim (Option-cases (Mysql.init h done s)) [
    | inl stop ↦ absurd (ground arith)
    | inr (((sql, d), u), step) ↦ (record { sql = sql }, ground arith)
  ]

  module _ (control : Control) (started : Started control) (msg : Bytes) (fd : ℕ)
      (json json' field : Value) (parsed : parse (c_str msg) ≡ (true, json))
      (typed : member json (codes "TYPE") ≡ some (field, json')) (s : State) where
    -- Under a control as `Init` leaves it, a message that parses and whose member "TYPE" is that of
    -- a login or of an exit calls a view that is not there, and ends the server.
    pub process-unserved :
        (as_int field ≡ some (pos (msg_code login))) ⊎ (as_int field ≡ some (pos (msg_code exit)))
        → process h j usr_dir control msg fd s ≡ none
    unfolding process dispatch run_view find_view
    process-unserved (inl e) = ground (arith, (only_register control started).1)
    process-unserved (inr e) = ground (arith, (only_register control started).1)

    -- A message of another type than these and a registration is answered with an error.
    pub process-unknown :
        (n : ℤ)
        → as_int field ≡ some n
        → is_command n ≡ false
        → process h j usr_dir control msg fd s
          ≡ send_response h j fd json' (codes "error command!") s
    unfolding process dispatch
    process-unknown n e other = ground arith

    -- Under a control as `Init` leaves it, a message that parses and that has no member "TYPE" is
    -- served as a registration, if null reads as the number 0.
    pub process-untyped :
        field ≡ null
        → as_int null ≡ some (pos 0)
        → (view : View) × (process h j usr_dir control msg fd s
            ≡ Register.process h j usr_dir view json' fd s)
    unfolding process dispatch run_view find_view
    process-untyped absent zero_type =
        let (view, map) = only_register control started in (view, ground (arith, map))
