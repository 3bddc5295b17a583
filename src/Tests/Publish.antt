-- ===== src/Tests/Publish.antt =====
-- Two requests at a time through the whole of `Do`, on the machine that receives one file.
use network_disk_server.Upload.Store.{Stage}
use network_disk_server.Tests.Depot.{Depot, stage}

abbrev two : Stage
two = stage 2
