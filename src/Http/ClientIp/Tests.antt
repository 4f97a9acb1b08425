-- ===== src/Http/ClientIp/Tests.antt =====
-- Addresses of the two families.
use agentic_hive.Prelude.{[]}
use agentic_hive.Http.{Request}

abbrev from_home : Request
from_home = record {
  method = "GET";
  path = "/api/servers";
  query = [];
  headers = [];
  cookies = [];
  remote_addr = "[::1]:80";
}
