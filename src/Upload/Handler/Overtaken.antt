-- ===== src/Upload/Handler/Overtaken.antt =====
-- One call of `UploadRpc::Do` of code/src/long_connect/upload_rpc.cpp that moves all parts to the store
-- before another has looked at the sign of its own.
use network_disk_server.Base.{ℕ, ◌^◌, ◌≤◌, ◌<◌, Bool, true, false, List, [], length}
use network_disk_server.Base.Fallible.{M}
use network_disk_server.Base.Interleave.{again}
use network_disk_server.Base.Text.{Bytes, Lacks}
use network_disk_server.FileSys.{write_len}
use network_disk_server.Upload.Handler.{HandlerPhase, replies, handler_step}
use network_disk_server.Upload.Handler.Situation.{Unsummed}
use network_disk_server.Upload.Messages.{Response, answer}
use network_disk_server.Upload.Store.{StartsEmpty, Stage, Acts, base, part}

module _ (g : Stage) (acts : Acts g) (i : ℕ) (body : Bytes) (response : Response) where
  open g use {State, host}

  abbrev step : HandlerPhase → M State HandlerPhase
  step = handler_step host g.flags (base g) (part g i body) response

-- Both write their parts, and the first moves them before the second has looked at its sign.
abbrev pub overtaking : List Bool
overtaking = again 7 true (again 7 false (again 3 true (again 1 false [])))

module _ (g : Stage) (acts : Acts g) (lost : Unsummed g) (empty : StartsEmpty g.host)
    (small : g.shard < 2 ^ 31) (i i' : ℕ) (body body' : Bytes) (clean : Lacks 0 body)
    (short : length body ≤ write_len) (clean' : Lacks 0 body') (short' : length body' ≤ write_len)
    (response response' : Response) where
  open g use {State, host}

  abbrev one : HandlerPhase → M State HandlerPhase
  one = handler_step host g.flags (base g) (part g i body) response

  abbrev other : HandlerPhase → M State HandlerPhase
  other = handler_step host g.flags (base g) (part g i' body') response'

  abbrev refused : HandlerPhase
  refused = replies (answer response' false "part sign check error")
