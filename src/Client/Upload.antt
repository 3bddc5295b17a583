-- ===== src/Client/Upload.antt =====
-- code/src/long_connect/brpc_client.cpp and its header: `BrpcClient`.
pub mod Files
use network_disk_server.Base.{
  ℕ, zero, suc, ◌+◌, ◌-◌, ◌/◌, ◌%◌, ◌^◌, Bool, true, false, Option, none, some, List, [], ◌++◌, ltb,
  ◌==◌, if◌then◌else◌, length, take, drop,
}
use network_disk_server.Base.Int.{ℤ, pos, negsuc, minus_one, nonzero, to_int32}
use network_disk_server.Base.Fallible.{M, pure, fault, call, act, look, ◌>>=◌, ◌>>◌}
use network_disk_server.Base.Text.{Bytes, c_str}
use network_disk_server.Shell.{md5_sum, string_of, or_fault, msg_code, upload}
use network_disk_server.Upload.Messages.{Request, Response}
use network_disk_server.Client.Station.{Station}

-- `MAX_SIZE_PER_SHARD`
abbrev pub max_size_per_shard : ℕ
max_size_per_shard = 2

-- `size / MAX_SIZE_PER_SHARD + 1`, the number of rounds of the loop. The quotient is cut towards 0,
-- so a size of -1 gives one round, and a smaller one none.
unfoldable pub shard_of : ℤ → ℕ
shard_of (pos size) = size / max_size_per_shard + 1
shard_of (negsuc zero) = 1
shard_of (negsuc (suc n)) = 0

-- What the block holds after a read into its front.
unfoldable pub fill : Bytes → Bytes → Bytes
fill block chunk = chunk ++ drop (length chunk) block

module _ (t : Station) where
  open t use {
    State, fopen, fclose, fseek_end, ftell, rewind, fread, malloc, rpc_flags, server, channel_init,
    send, md5,
  }

  unfoldable pub get_file_size : ℕ → M State ℤ
  get_file_size file = do
    sought ← call (fseek_end file)
    size ← look (λ s. if sought then ftell file s else minus_one)
    act (rewind file)
    pure size

  -- The request of one round. The block is read as a C string, for the sign and for the body.
  unfoldable pub part_request : Bytes → Bytes → Bytes → ℕ → ℕ → Bytes → Request
  part_request file file_md5 usr shard part_index text = record {
    op_type = msg_code upload;
    shard = shard;
    part_index = part_index;
    part_sign = md5 text;
    file_name = file;
    file_sign = file_md5;
    usr = usr;
    body = text;
  }

  -- One round: the response is only logged. A block without a NUL is read past its end.
  unfoldable pub upload_part : Bytes → Bytes → Bytes → ℕ → ℕ → ℕ → M State (Unit {0})
  upload_part file file_md5 usr shard fp part_index = do
    block ← call (malloc max_size_per_shard)
    chunk ← call (fread fp max_size_per_shard)
    text ← or_fault t.host (string_of (take max_size_per_shard (fill block chunk)))
    response ← call (send (part_request file file_md5 usr shard part_index text))
    pure tt

  -- `for (part_index = 0; part_index < shard; ++part_index)`, by the rounds left.
  unfoldable pub upload_parts : Bytes → Bytes → Bytes → ℕ → ℕ → ℕ → ℕ → M State (Unit {0})
  upload_parts file file_md5 usr shard fp zero part_index = pure tt
  upload_parts file file_md5 usr shard fp (suc rounds) part_index =
      upload_part file file_md5 usr shard fp part_index
      >> upload_parts file file_md5 usr shard fp rounds (part_index + 1)

  -- `fopen`, with the `fclose` of a null pointer that follows its failure.
  unfoldable pub open_file : Bytes → M State ℕ
  open_file file = do fp ← call (fopen file); elim fp [ none ↦ fault | some f ↦ pure f ]

  unfoldable pub do_upload_file : Bytes → Bytes → M State ℤ
  do_upload_file file usr = do
    (code, file_md5) ← md5_sum t.host file []
    elim (nonzero code) [
      | true ↦ pure (pos 0)
      | false ↦ do
        fp_s ← open_file file
        size ← get_file_size fp_s
        act (fclose fp_s)
        fp ← open_file file
        let shard = shard_of (to_int32 size)
        upload_parts file file_md5 usr shard fp shard 0
        act (fclose fp)
        pure (pos 0)
    ]

  -- `channel.Init(_server.c_str(), FLAGS_load_balancer.c_str(), &options)`, with the options set from
  -- the flags.
  abbrev pub connects : State → Bool × State
  connects = channel_init rpc_flags (c_str server)

  -- The result of `doUploadFile` is dropped.
  unfoldable pub do_request : ℕ → Bytes → Bytes → M State ℤ
  do_request type file usr = do
    ready ← call connects
    elim ready [
      | false ↦ pure minus_one
      | true ↦ elim (type == msg_code upload) [
        | true ↦ do_upload_file file usr >> pure (pos 0)
        | false ↦ pure (pos 0)
      ]
    ]
