-- ===== src/Upload/Paths.antt =====
-- Where `UploadRpc::Do` of code/src/long_connect/upload_rpc.cpp puts the parts of a file.
use network_disk_server.Host.{Host}
