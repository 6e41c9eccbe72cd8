-- ===== src/Exchange/Download/Arrives.antt =====
-- A whole call of a streaming server at the client.
use ttrpc.Prelude.{nat_eq, string_eq}
use ttrpc.Stream.{Stream}
