-- ===== src/Client/Menu/Reports.antt =====
-- What the operations of code/cmd/clientMain.cpp report and leave behind.
use network_disk_server.Base.{
  ℕ, ◌-◌, ◌≤◌, ◌≡◌, ◌⊎◌, inl, inr, ap, ◌∙◌, Bool, true, false, none, some, ◌++◌, arith, length,
  take_all, Option-cases, Bool-cases, String,
}
use network_disk_server.Base.Int.{ℤ, pos}
use network_disk_server.Base.Text.{Bytes, codes, c_str, Lacks}
use network_disk_server.Shell.{bytes_from, string_of, msg_code, upload}
use network_disk_server.Shell.Output.{string_of-append}
use network_disk_server.Client.Terminal.{Terminal}
use network_disk_server.Client.Station.{Station}
use network_disk_server.Client.Upload.{do_request, do_upload_file, connects}
use network_disk_server.Client.Menu.{
  response_max_len, response_buffer, parse_response, send_short_req, give_up, upload_op,
  upload_typed, with_endl, g_ser_ip, g_short_conn_port,
}

response_buffer-fits :
    (garbage : ℕ → ℕ) (bytes junk : Bytes)
    → length bytes ≤ response_max_len
    → Lacks 0 bytes
    → string_of (bytes_from garbage (length bytes) (response_max_len - length bytes)) ≡ some junk
    → string_of (response_buffer garbage bytes) ≡ some (bytes ++ junk)
unfolding response_buffer
response_buffer-fits garbage bytes junk fits clean ends =
    ap (λ k. string_of (k ++ bytes_from garbage (length k) (response_max_len - length k)))
      (take_all response_max_len bytes fits)
    ∙ string_of-append bytes _ junk clean ends

-- `DoRequest` returns 0 as soon as the channel is set up.
do_request-zero :
    (t : Station) (type : ℕ) (file usr : Bytes) (s u : t.State) (code : ℤ)
    → (connects t s).0 ≡ true
    → do_request t type file usr s ≡ some (code, u)
    → code ≡ pos 0
unfolding do_request
do_request-zero t type file usr s u code ready run =
    elim (Option-cases (do_upload_file t file usr (connects t s).1)) [
      | inl stop ↦ ground arith
      | inr (r, stored) ↦ ground arith
    ]

module _ (t : Terminal) where
  open t use {State, station, json, print, read_word, socket, connect, send_msg}

  -- A response of at most 1024 bytes without a NUL is parsed together with whatever the memory of
  -- the buffer holds behind it up to a NUL. If that parses the connection stays open, and if not it
  -- is closed.
  pub parse_response-reads :
      (fd : ℕ) (s u : State) (bytes junk : Bytes) (parsed : Bool) (val : json.Value)
      → station.host.recv fd response_max_len s ≡ (some bytes, u)
      → length bytes ≤ response_max_len
      → Lacks 0 bytes
      → string_of
          (bytes_from (station.host.stale s) (length bytes) (response_max_len - length bytes))
        ≡ some junk
      → json.parse (bytes ++ junk) ≡ (parsed, val)
      → parse_response t fd s
        ≡ some (elim parsed [
          | true ↦ (some val, u)
          | false ↦ (
            none,
            station.host.close fd (
                print
                  (with_endl (codes "Error: parse response failed, res_buf: " ++ (bytes ++ junk)))
                  u),
          )
        ])
  unfolding parse_response
  parse_response-reads fd s u bytes junk true val received fits clean ends parses =
      rw (parse_response, received, response_buffer-fits _ bytes junk fits clean ends, parses)
        (ap (λ (p : Bool × json.Value). some (some p.1, u)) parses)
  parse_response-reads fd s u bytes junk false val received fits clean ends parses =
      rw (parse_response, received, response_buffer-fits _ bytes junk fits clean ends, parses)

  give_up-closes :
      (fd : ℕ) (msg : String) (s u : State)
      → give_up t fd msg s ≡ some (none, u)
      → (v : State) × (u ≡ station.host.close fd v)
  unfolding give_up
  give_up-closes fd msg s u run = (print (with_endl (codes msg ++ t.strerror s)) s, ground arith)

  -- A request that could not be sent leaves no socket behind: either none was made, or the last
  -- thing done is to close it.
  send_short_req-closes :
      (msg : Bytes) (s u : State)
      → send_short_req t msg s ≡ some (none, u)
      → ((socket s).0 ≡ none)
        ⊎ ((fd : ℕ) × (v : State) × ((socket s).0 ≡ some fd) × (u ≡ station.host.close fd v))
  unfolding send_short_req
  send_short_req-closes msg s u run = elim (Option-cases (socket s).0) [
    | inl e ↦ inl e
    | inr (fd, e) ↦
        let s1 = (socket s).1 in
        let (connected, s2) = connect fd g_ser_ip g_short_conn_port s1 in
        let (sent, s3) = send_msg fd (c_str msg) s2 in
        elim (Bool-cases connected) [
          | inl c ↦ elim (Bool-cases sent) [
            | inl d ↦ absurd (ground arith)
            | inr d ↦
                let (v, w) = give_up-closes fd "Error: send msg error: " s3 u (ground arith) in
                inr (fd, v, e, w)
          ]
          | inr c ↦
              let (v, w) = give_up-closes fd "Error: connect failed" s2 u (ground arith) in
              inr (fd, v, e, w)
        ]
  ]

  -- Every run of the upload that ends, on a terminal whose channel can be set up, prints that the
  -- upload was a success, whatever became of the file and of its parts; and it goes on to the
  -- upload although nobody is logged in.
  pub upload_op-success :
      (usr : Bytes) (s u : State)
      → ((v : State) → (connects station v).0 ≡ true)
      → upload_op t usr s ≡ some (tt, u)
      → (file : Bytes) × (v : State) × (w : State) × (do_request station
            (msg_code upload)
            file
            usr
            v
          ≡ some (pos 0, w))
        × (u ≡ print (with_endl (codes "upload file: " ++ (file ++ codes "success"))) w)
  unfolding upload_op upload_typed
  upload_op-success usr s u ready run =
      let s1 = print (with_endl (codes "Error: not login, Login first")) s in
      let (file, v) = read_word (print (codes "file: ") s1) in
      elim (Option-cases (do_request station (msg_code upload) file usr v)) [
        | inl stop ↦ absurd (ground arith)
        | inr ((code, w), e) ↦
            let zero_code =
              do_request-zero station (msg_code upload) file usr v w code (ready v) e in
            (file, v, w, e ∙ ap (λ k. some (k, w)) zero_code, ground arith)
      ]
