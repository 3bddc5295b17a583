-- ===== src/Client/Station.antt =====
-- What the client program calls besides `Host`: C streams, fresh memory, the RPC channel, and the
-- MD5 function, which is another project's code that the repository keeps a copy of.
use network_disk_server.Base.{ℕ, Bool, Option}
use network_disk_server.Base.Int.{ℤ}
use network_disk_server.Base.Text.{Bytes}
use network_disk_server.Flags.{RpcFlags}
use network_disk_server.Host.{Host}
use network_disk_server.Upload.Messages.{Request, Response}

pub record Station : Type 1 where
  pub host : Host
  pub open host use {State}
  -- fopen(path, "rb"), `none` for NULL, and fclose
  pub fopen : Bytes → State → Option ℕ × State
  pub fclose : ℕ → State → State
  -- fseek(file, 0, SEEK_END) == 0, ftell, rewind
  pub fseek_end : ℕ → State → Bool × State
  pub ftell : ℕ → State → ℤ
  pub rewind : ℕ → State → State
  -- fread(…, 1, count, file): the bytes that it reads
  pub fread : ℕ → ℕ → State → Bytes × State
  -- malloc(count): what lies in the block
  pub malloc : ℕ → State → Bytes × State
  -- the flags of the channel, the address that the client was made with; Channel::Init == 0, and a
  -- call of the service, `none` for a call that fails
  pub rpc_flags : RpcFlags
  pub server : Bytes
  pub channel_init : RpcFlags → Bytes → State → Bool × State
  pub send : Request → State → Option Response × State
  -- md5 of md5.cpp
  pub md5 : Bytes → Bytes
