-- ===== src/Client/Menu/Loop.antt =====
-- `main` of code/cmd/clientMain.cpp, by the number of its rounds, and what it does with input that is
-- no number.
use network_disk_server.Base.{ℕ, zero, suc, ◌≡◌, refl, ◌∙◌, [], ◌++◌, ap, none, Option, some}
use network_disk_server.Base.Int.{pos}
use network_disk_server.Base.Fallible.{M, pure, act, call, >>=-run, ◌>>◌, ◌>>=◌}
use network_disk_server.Base.Text.{Bytes, codes, to_string}
use network_disk_server.Shell.{msg_code, upload}
use network_disk_server.Client.Station.{Station}
use network_disk_server.Client.Terminal.{Terminal}
use network_disk_server.Client.Menu.{
  main_round, show_menu, show_offline, choose, regist_op, send_regist, print_line, with_endl,
  g_ser_ip, g_long_conn_port,
}

module _ (t : Terminal) where
  open t use {State}

  -- `while (1)`, which no operation leaves, for so many rounds.
  unfoldable pub main_rounds : ℕ → M State (Unit {0})
  main_rounds zero = pure tt
  main_rounds (suc rounds) = main_round t >> main_rounds rounds

  -- `BrpcClient bclient(string(g_ser_ip) + ":" + to_string(g_long_conn_port))`; `Init` does nothing.
  abbrev pub bclient : Station
  bclient = record t.station { server = g_ser_ip ++ (codes ":" ++ to_string g_long_conn_port) }

module _ (t : Terminal) where
  open t use {State}

  -- `start` stands for `initGlog` and the call of `signal`.
  unfoldable pub client_main : (State → State) → ℕ → M State (Unit {0})
  client_main start rounds = do
    act start
    print_line t (codes "=====welcome to Network disk server=====")
    print_line t (codes "========================================")
    main_rounds (record t { station = bclient t }) rounds

-- What `cin` does with a word that is no number, by states in which such a word comes next and states
-- in which the stream has failed: the read of an `int` sets it to 0 and fails, and after that a read
-- of a word gives the empty one. Printing changes neither.
pub record RefusesWords (t : Terminal) (Garbled Failed : t.State → Type 0) : Type 0 where
  pub read_zero : (s : t.State) → Garbled s → (u : t.State) × (t.read_int s ≡ (pos 0, u)) × Failed u
  pub read_nothing : (s : t.State) → Failed s → (u : t.State) × (t.read_word s ≡ ([], u)) × Failed u
  pub print_garbled : (msg : Bytes) (s : t.State) → Garbled s → Garbled (t.print msg s)
  pub print_failed : (msg : Bytes) (s : t.State) → Failed s → Failed (t.print msg s)

module _ (t : Terminal) (Garbled Failed : t.State → Type 0)
    (refuses : RefusesWords t Garbled Failed) where
  open t use {State}

  -- A prompt and a read after the stream has failed.
  asked :
      (msg : Bytes) (s : State)
      → Failed s
      → (u : State) × (t.read_word (t.print msg s) ≡ ([], u)) × Failed u
  asked msg s f = refuses.read_nothing (t.print msg s) (refuses.print_failed msg s f)

  regist_op-failed :
      (s : State) → Failed s → (u : State) × Failed u × (regist_op t s ≡ send_regist t [] [] u)
  unfolding regist_op
  regist_op-failed s f =
      let (u, e, g) = asked (codes "input usr: ") s f in
      let (v, e', g') = asked (codes "input passwd: ") u g in
      let (w, e'', g'') = asked (codes "repeat passwd: ") v g' in (w, g'', rw (e, e', e'') refl)

  shown :
      (s : State)
      → Garbled s
      → (u : State) × ((show_offline t >> show_menu t) s ≡ some (tt, u)) × Garbled u
  unfolding show_offline show_menu
  shown s g = (_, refl, search (refuses.print_garbled) depth 16)

  -- A round after the menu.
  abbrev answered : M State (Unit {0})
  answered =
      call t.read_int >>= λ op_type. print_line t (to_string (msg_code upload)) >> choose t op_type

  -- The operation is a registration of nobody.
  chosen : (s : State) → Garbled s → (u : State) × Failed u × (answered s ≡ send_regist t [] [] u)
  unfolding choose
  chosen s g =
      let (u, e, f) = refuses.read_zero s g in
      let five = t.print (with_endl (to_string (msg_code upload))) u in
      let (v, f', ran) = regist_op-failed five (refuses.print_failed _ u f) in (v, f', rw e ran)

  main_round-shown :
      (s v : State) → (show_offline t >> show_menu t) s ≡ some (tt, v) → main_round t s ≡ answered v
  unfolding main_round show_offline show_menu
  main_round-shown s v e = >>=-run (show_offline t >> show_menu t) (λ _. answered) e

  -- With a word that is no number at the prompt of the menu, and `cin` as in `RefusesWords`, the next
  -- round, once the menu is shown and the stream has failed, is a registration that sends an empty
  -- name and an empty password, and the rounds after it follow.
  pub main_rounds-garbled :
      (rounds : ℕ) (s : State)
      → Garbled s
      → (u : State) × Failed u
        × (main_rounds t (suc rounds) s ≡ (send_regist t [] [] >> main_rounds t rounds) u)
  unfolding main_rounds
  main_rounds-garbled rounds s g =
      let (v, e, g') = shown s g in
      let (u, f, ran) = chosen v g' in
      (
        u,
        f,
        ap
            (λ (o : Option (Unit {0} × State)). elim o [
              | none ↦ none
              | some (a, w) ↦ main_rounds t rounds w
            ])
            (main_round-shown s v e ∙ ran),
      )
