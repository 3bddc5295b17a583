-- ===== src/Worker/Receive.antt =====
-- How `recvClientMsg` of code/src/short_connect/mpthread.cpp reads a message.
use network_disk_server.Base.{
  ℕ, zero, suc, ◌-◌, ◌≤◌, ◌<◌, ◌≡◌, refl, sym, ap, subst, ◌∙◌, none, some, [], ◌∷◌, ◌++◌,
  append-nil, arith, length, take, take_all, length-take,
}
use network_disk_server.Base.Fallible.{act, ◌>>◌}
use network_disk_server.Base.Text.{Bytes, Lacks}
use network_disk_server.Host.{Host}
use network_disk_server.Json.{Json}
use network_disk_server.Control
use network_disk_server.Control.{Control}
use network_disk_server.Shell.{string_of}
use network_disk_server.Shell.Output.{string_of-append}
use network_disk_server.Worker.{serve_client, receive_buffer, zeros, recv_buf_size}

string_of-zeros : (n : ℕ) → string_of (zeros (suc n)) ≡ some []
unfolding string_of zeros
string_of-zeros n = refl

string_of-Lacks : (s : Bytes) → Lacks 0 s → string_of s ≡ none
unfolding string_of
string_of-Lacks [] clean = refl
string_of-Lacks (c ∷ s) clean = ground (arith, string_of-Lacks s clean.1)

Lacks-take : (k n : ℕ) (s : Bytes) → Lacks k s → Lacks k (take n s)
Lacks-take k zero s l = tt
Lacks-take k (suc n) [] l = tt
Lacks-take k (suc n) (c ∷ s) l = (l.0, Lacks-take k n s l.1)

receive_buffer-fits :
    (bytes : Bytes)
    → length bytes < recv_buf_size
    → Lacks 0 bytes
    → string_of (receive_buffer (some bytes)) ≡ some bytes
unfolding receive_buffer
receive_buffer-fits bytes fits clean =
    ap (λ k. string_of (k ++ zeros (recv_buf_size - length k)))
      (take_all recv_buf_size bytes (omega arith))
    ∙ string_of-append bytes (zeros (recv_buf_size - length bytes)) [] clean ends
    ∙ ap some (append-nil bytes)
  where
    ends : string_of (zeros (recv_buf_size - length bytes)) ≡ some []
    ends =
        ap (λ n. string_of (zeros n))
          (let e : recv_buf_size - length bytes ≡ suc (recv_buf_size - length bytes - 1) =
              omega arith in
            e)
        ∙ string_of-zeros (recv_buf_size - length bytes - 1)

receive_buffer-full :
    (bytes : Bytes)
    → recv_buf_size ≤ length bytes
    → Lacks 0 bytes
    → string_of (receive_buffer (some bytes)) ≡ none
unfolding receive_buffer zeros
receive_buffer-full bytes full clean =
    ap (λ n. string_of (take recv_buf_size bytes ++ zeros n))
      (let e : recv_buf_size - length (take recv_buf_size bytes) ≡ 0 =
          omega (arith, length-take recv_buf_size bytes) in
        e)
    ∙ string_of-Lacks (take recv_buf_size bytes ++ []) (
        subst (Lacks 0) (sym (append-nil (take recv_buf_size bytes)))
          (Lacks-take 0 recv_buf_size bytes clean))

module _ (h : Host) (j : Json) (usr_dir : Bytes) (control : Control) (fd : ℕ) (bytes : Bytes)
    (s t : h.State) (received : h.recv fd recv_buf_size s ≡ (some bytes, t))
    (clean : Lacks 0 bytes) where
  -- A message of less than 512 bytes without a NUL is processed as it was sent, and its connection
  -- is closed after that.
  pub serve_client-fits :
      length bytes < recv_buf_size
      → serve_client h j usr_dir control fd s
        ≡ (Control.process h j usr_dir control bytes fd >> act (h.close fd)) t
  unfolding serve_client
  serve_client-fits fits = ground (arith, received, receive_buffer-fits bytes fits clean)

  -- A message of 512 bytes or more without a NUL is read past the buffer's end.
  pub serve_client-full :
      recv_buf_size ≤ length bytes → serve_client h j usr_dir control fd s ≡ none
  unfolding serve_client
  serve_client-full full = ground (arith, received, receive_buffer-full bytes full clean)
