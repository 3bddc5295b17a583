-- ===== src/Worker.antt =====
-- code/src/short_connect/mpthread.cpp and its header: what a worker thread does with a client.
pub mod Receive
use network_disk_server.Base.{
  ℕ, zero, suc, ◌-◌, Option, none, some, List, [], ◌∷◌, ◌++◌, length, take,
}
use network_disk_server.Base.Fallible.{M, call, act, ◌>>=◌, ◌>>◌}
use network_disk_server.Base.Text.{Bytes}
use network_disk_server.Host.{Host}
use network_disk_server.Json.{Json}
use network_disk_server.Shell.{string_of, or_fault}
use network_disk_server.Control
use network_disk_server.Control.{Control}

-- `RECV_BUF_SIZE`
abbrev pub recv_buf_size : ℕ
recv_buf_size = 512

unfoldable pub zeros : ℕ → Bytes
zeros zero = []
zeros (suc n) = 0 ∷ zeros n

-- `char buf[RECV_BUF_SIZE] = {0}` after `recv`, whose error and end of stream are only logged.
unfoldable pub receive_buffer : Option Bytes → Bytes
unfolding zeros
receive_buffer none = zeros recv_buf_size
receive_buffer (some bytes) =
    let kept = take recv_buf_size bytes in kept ++ zeros (recv_buf_size - length kept)

module _ (h : Host) (j : Json) (usr_dir : Bytes) where
  open h use {State, recv, close}

  -- `recvClientMsg` from the descriptor on: the buffer is read as a C string.
  unfoldable pub serve_client : Control → ℕ → M State (Unit {0})
  serve_client control client_fd = do
    r ← call (recv client_fd recv_buf_size)
    msg ← or_fault h (string_of (receive_buffer r))
    Control.process h j usr_dir control msg client_fd
    act (close client_fd)
