-- ===== src/Client/Terminal.antt =====
-- What the menu of the client program calls besides `Station`: the standard streams, a socket to
-- the server, and the printing of a JSON value.
use network_disk_server.Base.{ℕ, Bool, Option}
use network_disk_server.Base.Int.{ℤ}
use network_disk_server.Base.Text.{Bytes}
use network_disk_server.Json.{Json}
use network_disk_server.Client.Station.{Station}

pub record Terminal : Type 1 where
  pub station : Station
  pub open station use {State}
  pub json : Json
  -- cout, and cin: a word, empty if there is none; what an `int` holds after a read into it
  pub print : Bytes → State → State
  pub read_word : State → Bytes × State
  pub read_int : State → ℤ × State
  -- strerror(errno)
  pub strerror : State → Bytes
  -- socket, `none` for a negative result; connect to an address and a port, and send, `true` for a
  -- result that is not negative
  pub socket : State → Option ℕ × State
  pub connect : ℕ → Bytes → ℕ → State → Bool × State
  pub send_msg : ℕ → Bytes → State → Bool × State
  -- operator<< of a JSON value
  pub json_stream : json.Value → Bytes
