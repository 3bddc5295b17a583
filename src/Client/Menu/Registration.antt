-- ===== src/Client/Menu/Registration.antt =====
-- A registration from end to end: the request that `registOp` of code/cmd/clientMain.cpp makes, as
-- `Control::Process` of code/src/short_connect/control.cpp and `RegisterView` serve it.
use network_disk_server.Base.{ℕ, length, ◌<◌, ℕ, ◌≡◌, refl, ap, ◌∙◌, true, false, some}
use network_disk_server.Base.Int.{pos}
use network_disk_server.Base.Fallible.{act, ◌>>◌, >>=-same, ◌>>=◌, >>=-run}
use network_disk_server.Base.Text.{Bytes, codes, c_str, bytes_eq, Lacks, c_str_lacking}
use network_disk_server.Host.{Host}
use network_disk_server.Worker.{serve_client, recv_buf_size}
use network_disk_server.Worker.Receive.{serve_client-fits}
use network_disk_server.Json.{Json}
use network_disk_server.Control
use network_disk_server.Control.{Control}
use network_disk_server.Control.Dispatch.{Started, process-untyped}
use network_disk_server.Register
use network_disk_server.Register.{View, regist, send_response, string_member}
use network_disk_server.Client.Menu.{regist_request}

-- What the members of JSON objects do: null becomes an object when a member of it is set or read, a
-- member that is not there reads as null, and setting or reading one leaves the others alone.
pub record KeepsMembers (j : Json) (IsObject : j.Value → Type 0) (get : j.Value → Bytes → j.Value)
    : Type 0 where
  pub null_object : IsObject j.null
  pub get_null : (key : Bytes) → get j.null key ≡ j.null
  pub sets :
      (v : j.Value) (key : Bytes) (x : j.Value)
      → IsObject v
      → (w : j.Value) × (j.set_member v key x ≡ some w)
        × IsObject w
        × (get w key ≡ x)
        × ((other : Bytes) → bytes_eq other key ≡ false → get w other ≡ get v other)
  pub gets :
      (v : j.Value) (key : Bytes)
      → IsObject v
      → (w : j.Value) × (j.member v key ≡ some (get v key, w))
        × IsObject w
        × ((other : Bytes) → get w other ≡ get v other)
  pub text_string : (s : Bytes) → Lacks 0 s → j.as_string (j.text s) ≡ some s
  pub null_zero : j.as_int j.null ≡ some (pos 0)

module _ (j : Json) (IsObject : j.Value → Type 0) (get : j.Value → Bytes → j.Value)
    (laws : KeepsMembers j IsObject get) where
  open j use {Value}

  -- The request is an object with a name and a password, and no member "TYPE".
  abbrev Asks : Value → Bytes → Bytes → Type 0
  Asks req usr passwd =
      IsObject req
      × (get req (codes "TYPE") ≡ j.null)
      × (get req (codes "Name") ≡ j.text usr)
      × (get req (codes "Passwd") ≡ j.text passwd)

  regist_request-Asks :
      (usr passwd : Bytes)
      → Lacks 0 usr
      → Lacks 0 passwd
      → (req : Value) × (regist_request j usr passwd ≡ some req) × Asks req usr passwd
  unfolding regist_request bytes_eq
  regist_request-Asks usr passwd clean clean' =
      let (v, e, o, g, k) = laws.sets j.null (codes "Type") (j.number (pos 0)) laws.null_object in
      let (v', e', o', g', k') = laws.sets v (codes "Name") (j.text (c_str usr)) o in
      let (w, e'', o'', g'', k'') = laws.sets v' (codes "Passwd") (j.text (c_str passwd)) o' in
      (
        w,
        rw (regist_request, e, e', e''),
        (
          o'',
          k'' (codes "TYPE") refl
              ∙ k' (codes "TYPE") refl
              ∙ k (codes "TYPE") refl
              ∙ laws.get_null (codes "TYPE"),
          k'' (codes "Name") refl ∙ g' ∙ ap j.text (c_str_lacking usr clean),
          g'' ∙ ap j.text (c_str_lacking passwd clean'),
        ),
      )

  string_member-gets :
      (h : Host) (v : Value) (key s : Bytes) (state : h.State)
      → IsObject v
      → Lacks 0 s
      → get v key ≡ j.text s
      → (w : Value) × (string_member h j v key state ≡ some ((s, w), state))
        × IsObject w
        × ((other : Bytes) → get w other ≡ get v other)
  unfolding string_member
  string_member-gets h v key s state object clean e =
      let (w, m, o, k) = laws.gets v key object in (w, rw (m, e, laws.text_string s clean), o, k)

  module _ (h : Host) (usr_dir : Bytes) (view : View) (usr passwd : Bytes) (clean : Lacks 0 usr)
      (clean' : Lacks 0 passwd) where
    process-Asks :
        (v : Value) (fd : ℕ) (s : h.State)
        → IsObject v
        → get v (codes "Name") ≡ j.text usr
        → get v (codes "Passwd") ≡ j.text passwd
        → Register.process h j usr_dir view v fd s
          ≡ (regist h usr_dir view usr passwd >>= send_response h j fd j.null) s
    unfolding Register.process
    process-Asks v fd s object name passwd_of =
        let (w, e, o, k) = string_member-gets h v (codes "Name") usr s object clean name in
        let (w', e', o', k') =
          string_member-gets h w (codes "Passwd") passwd s o clean'
            (k (codes "Passwd") ∙ passwd_of) in
        >>=-run (string_member h j v (codes "Name")) _ e
        ∙ >>=-run (string_member h j w (codes "Passwd")) _ e'

  process-served :
      (h : Host) (usr_dir : Bytes) (control : Control) (started : Started h j usr_dir control)
      (usr passwd : Bytes) (fd : ℕ) (s : h.State)
      → Lacks 0 usr
      → Lacks 0 passwd
      → ((req : Value)
          → regist_request j usr passwd ≡ some req
          → j.parse (c_str (j.to_styled req)) ≡ (true, req))
      → (req : Value) × (regist_request j usr passwd ≡ some req)
        × ((view : View) × (Control.process h j usr_dir control (j.to_styled req) fd s
              ≡ (regist h usr_dir view usr passwd >>= send_response h j fd j.null) s))
  process-served h usr_dir control started usr passwd fd s clean clean' reads =
      let (req, made, (object, untyped, name, passwd_of)) =
        regist_request-Asks usr passwd clean clean' in
      let (req', m, object', k) = laws.gets req (codes "TYPE") object in
      let (view, served) =
        process-untyped h j usr_dir control started (j.to_styled req) fd req req'
          (get req (codes "TYPE")) (reads req made) m s untyped laws.null_zero in
      (
        req,
        made,
        (
          view,
          served
              ∙ process-Asks h usr_dir view usr passwd clean clean' req' fd s object'
                  (k (codes "Name") ∙ name) (k (codes "Passwd") ∙ passwd_of),
        ),
      )

  -- The text of the request arrives whole in one `recv`, with less than 512 bytes and no NUL, and the
  -- server's parser reads back what the client's printer wrote.
  abbrev pub Arrives : (h : Host) → ℕ → h.State → h.State → Value → Type 0
  Arrives h fd s t req =
      (h.recv fd recv_buf_size s ≡ (some (j.to_styled req), t))
      × (length (j.to_styled req) < recv_buf_size)
      × Lacks 0 (j.to_styled req)
      × (j.parse (c_str (j.to_styled req)) ≡ (true, req))

  -- With JSON members as in `KeepsMembers` and a control as `Init` leaves it, the request that the
  -- client makes of a name and a password without a NUL exists. If its text has less than 512 bytes and
  -- no NUL, arrives whole in the server's one `recv` and is read back by the server's parser
  -- (`Arrives`), then the worker that serves the connection registers that name with that password,
  -- answers with the outcome and closes the connection, for all that the client spells its type's key
  -- in another way.
  pub regist_request-served :
      (h : Host) (usr_dir : Bytes) (control : Control) (started : Started h j usr_dir control)
      (usr passwd : Bytes) (fd : ℕ) (s t : h.State)
      → Lacks 0 usr
      → Lacks 0 passwd
      → ((req : Value) → regist_request j usr passwd ≡ some req → Arrives h fd s t req)
      → (req : Value) × (regist_request j usr passwd ≡ some req)
        × (view : View) × (serve_client h j usr_dir control fd s
            ≡ ((regist h usr_dir view usr passwd >>= send_response h j fd j.null)
                  >> act (h.close fd))
                t)
  regist_request-served h usr_dir control started usr passwd fd s t clean clean' arrives =
      let (req, made, (view, served)) =
        process-served h usr_dir control started usr passwd fd t clean clean'
          (λ req e. (arrives req e).3) in
      let (received, fits, plain, reads) = arrives req made in
      (
        req,
        made,
        view,
        serve_client-fits h j usr_dir control fd (j.to_styled req) s t received plain fits
            ∙ >>=-same (Control.process h j usr_dir control (j.to_styled req) fd)
                (regist h usr_dir view usr passwd >>= send_response h j fd j.null)
                (λ _. act (h.close fd)) served,
      )
