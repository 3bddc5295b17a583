-- ===== src/Control.antt =====
-- code/src/short_connect/control.cpp and its header: `Control`, which picks the view for a message.
pub mod Dispatch
use network_disk_server.Base.{
  ℕ, Bool, true, false, Option, none, some, List, [], ◌∷◌, ◌||◌, ◌==◌, if◌then◌else◌,
}
use network_disk_server.Base.Int.{ℤ, pos, negsuc, nonzero}
use network_disk_server.Base.Fallible.{M, pure, fault, ◌>>=◌}
use network_disk_server.Base.Text.{Bytes, codes, c_str}
use network_disk_server.Host.{Host}
use network_disk_server.Json.{Json}
use network_disk_server.Shell.{msg_code, register, login, exit}
use network_disk_server.Register
use network_disk_server.Register.{View, try, send_response}

-- `_view_map`
pub record Control : Type 0 where
  pub view_map : List (ℕ × View)

unfoldable pub find_view : ℕ → List (ℕ × View) → Option View
find_view key [] = none
find_view key ((k, view) ∷ views) = if k == key then some view else find_view key views

-- The message types that have a branch; `is_type t n` is `json_val["TYPE"].asInt() == t`.
abbrev is_type : ℕ → ℤ → Bool
is_type t (pos n) = n == t
is_type t (negsuc n) = false

abbrev pub is_command : ℤ → Bool
is_command n =
    is_type (msg_code register) n || is_type (msg_code login) n || is_type (msg_code exit) n

abbrev magnitude : ℤ → ℕ
magnitude (pos n) = n
magnitude (negsuc n) = n

module _ (h : Host) where
  open h use {State}

  -- `LOG(FATAL)` ends the process.
  unfoldable pub init : Bool → M State (Control × Bool × Bool)
  init done = do
    (vregister, code, done') ← Register.init h done
    elim (nonzero code) [
      | true ↦ fault
      | false ↦ pure (record { view_map = (msg_code register, vregister) ∷ [] }, true, done')
    ]

  module _ (j : Json) (usr_dir : Bytes) (control : Control) where
    open j use {Value, parse, member, as_int}

    -- `_view_map[n]->Process(...)`: a missing key gives a null pointer.
    unfoldable pub run_view : ℕ → Value → ℕ → M State (Unit {0})
    run_view n json_val client_fd = elim (find_view n control.view_map) [
      | none ↦ fault
      | some view ↦ Register.process h j usr_dir view json_val client_fd
    ]

    -- `Process` after the parse.
    unfoldable pub dispatch : Value → ℕ → M State (Unit {0})
    dispatch json_val client_fd = do
      (field, json_val') ← try h j (member json_val (codes "TYPE"))
      n ← try h j (as_int field)
      elim (is_command n) [
        | true ↦ run_view (magnitude n) json_val' client_fd
        | false ↦ send_response h j client_fd json_val' (codes "error command!")
      ]

    unfoldable pub process : Bytes → ℕ → M State (Unit {0})
    process msg client_fd =
        let (parsed, json_val) = parse (c_str msg) in
        elim parsed [
          | true ↦ dispatch json_val client_fd
          | false ↦ send_response h j client_fd json_val (codes "parse msg failed")
        ]
