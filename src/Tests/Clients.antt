-- ===== src/Tests/Clients.antt =====
-- The HTTP client: src/client/CClient.cpp.
use solusek.Base.{
  ◌<◌, false, true, List, [], ◌∷◌, ◌≡◌, refl, arith, none, some, Bytes, codes, length, concat, All,
  pos,
}
use solusek.Decimal.{print_nat}
use solusek.Model.{Response, new_response, Endpoint, new_endpoint}
use solusek.Text.{strtolower}
use solusek.StringMap.{map_set}
use solusek.Socket.{healthy, Input, Output, stream}
use solusek.Files.{Log}
use solusek.Server.{Server, get_endpoint, find_endpoint}
use solusek.Node.Header.Parse.{IsHead}
use solusek.Node.Response.Sent.{response_text}
use solusek.Node.Run.{Outside, run}
use solusek.Client.{Client, new_client, set_endpoint, set_method}
use solusek.Client.Url.{Target, parse_endpoint}
use solusek.Client.Url.Parts.{Address, endpoint_text, parse_endpoint-text}
use solusek.Client.Request.{request_head, header_lines, length_line, request_pieces}
use solusek.Client.Request.Sent.{IsPiece, request_pieces-Splits}
use solusek.Client.Request.Served.{sent_head, Serves, request_head-Serves, IsUnmeasured}
use solusek.Client.Reply.{read_chunks, scan_hex}
use solusek.Client.Reply.Chunks.{Chunk, IsChunk, read_chunks-text}
use solusek.Client.Run.{Peer}

-- The client of a request with a query and a body.
abbrev caller : Client
caller = record {
  endpoint = codes "http://h/hi?a=1";
  method = codes "GET";
  use_ssl = false;
  verbose = false;
  cert_file_name = [];
  key_file_name = [];
  key_password = [];
  pkcs12_file_name = [];
  pkcs12_password = [];
  cert_mem = none;
  key_mem = none;
  additional_headers = (codes "Content-type", codes "application/json") ∷ [];
  timeout = pos 30000;
  freed = [];
}

-- It is what the constructor and two setters give.
caller_built : set_method (codes "GET") (set_endpoint (codes "http://h/hi?a=1") new_client) ≡ caller
unfolding set_method set_endpoint new_client map_set
caller_built = refl

abbrev target : Target
target = record { secure = false; host = codes "h"; port = pos 80; path = codes "/hi?a=1" }

abbrev request_in : Input
request_in = record {
  pending = [];
  arrivals = request_head caller target (codes "ok") ∷ codes "ok" ∷ [];
}

abbrev hi : Endpoint
hi = new_endpoint (codes "/hi") 7 (codes "GET")

abbrev greeting : Server
greeting = record {
  endpoints = hi ∷ [];
  static_endpoints = [];
  static_indexes = [];
  sessions = [];
  mime_types = [];
  incremental = 0;
}

abbrev outside : Outside
outside = record {
  call = λ n s r. (s, record new_response { body = r.body });
  asctime = codes "now\n";
  disk = record { open_file = λ name. none; mod_time = λ name. [] };
  stray = 0;
}

abbrev no_log : Log
no_log = record { opened = []; handles = 0 }

abbrev wire : Output
wire = record { sent = []; sends = healthy 100 }

sent_head-IsHead : IsHead (sent_head caller target (codes "/hi") (some (codes "a=1")) (codes "ok"))
unfolding print_nat
sent_head-IsHead = record {
  method_word = ground arith;
  path_word = ground arith;
  path_end = ground arith;
  query_word = ground arith;
  no_colon = ground arith;
  text = ground arith;
  names = ground arith;
  lines = ground arith;
}

caller-IsUnmeasured : IsUnmeasured caller
unfolding strtolower
caller-IsUnmeasured = refl

request_short : length (stream request_in) < 200
unfolding request_head header_lines length_line print_nat
request_short = ground arith

request_head-Serves_example :
    Serves outside greeting no_log wire caller target
      (sent_head caller target (codes "/hi") (some (codes "a=1")) (codes "ok"))
      (codes "ok")
      hi
      (run 200 2 outside greeting no_log request_in wire)
unfolding get_endpoint find_endpoint
request_head-Serves_example =
    request_head-Serves 200 2 outside greeting no_log request_in wire caller target (codes "/hi")
      (some (codes "a=1")) (codes "ok") hi refl sent_head-IsHead (ground arith) caller-IsUnmeasured
      refl refl (ground arith) (ground arith) refl request_short refl

request_pieces-Splits_example :
    (ps : List Bytes) × (request_pieces caller target (codes "ok")
      ≡ request_head caller target (codes "ok") ∷ ps)
    × (concat ps ≡ codes "ok")
    × All IsPiece ps
request_pieces-Splits_example = request_pieces-Splits caller target (codes "ok")

-- A response and the peer that sends it.
abbrev reply : Response
reply = record new_response { body = codes "done" }

abbrev peer : Peer
peer = record {
  input = record { pending = []; arrivals = response_text (codes "now\n") reply ∷ [] };
  connected = true;
  output = wire;
  parse_pkcs12 = λ name password. none;
  stray = 0;
}

-- The server whose callback gives that response.
abbrev answering : Outside
answering = record outside { call = λ n s r. (s, reply) }

abbrev chunks : List Chunk
chunks =
    record { size = codes "3"; bytes = codes "abc" }
    ∷ record { size = codes "0A"; bytes = codes "0123456789" }
    ∷ []

chunks-IsChunk : All IsChunk chunks
unfolding scan_hex
chunks-IsChunk = (
  record {
    hex = ground arith;
    given = ground arith;
    counts = refl;
    more = ground arith;
    small = ground arith;
  },
  (
    record {
      hex = ground arith;
      given = ground arith;
      counts = refl;
      more = ground arith;
      small = ground arith;
    },
    tt,
  ),
)

-- The line end behind the first chunk arrives in two parts.
abbrev chunks_in : Input
chunks_in = record {
  pending = codes "3\r\nabc\r";
  arrivals = codes "\n0A\r\n0123456789\r\n0\r\n" ∷ codes "\r\n" ∷ [];
}

read_chunks-text_example : read_chunks 50 7 [] chunks_in ≡ some (codes "abc0123456789")
read_chunks-text_example =
    read_chunks-text 50 7 [] chunks (codes "\r\n") chunks_in chunks-IsChunk refl (ground arith)

abbrev with_a_port : Address
with_a_port = record {
  protocol = codes "https";
  host = codes "h.org";
  port = some 8443;
  path = codes "/a:b";
}

parse_endpoint-text_example :
    parse_endpoint (endpoint_text with_a_port)
    ≡ some (record { secure = true; host = codes "h.org"; port = pos 8443; path = codes "/a:b" })
parse_endpoint-text_example = parse_endpoint-text with_a_port (record {
  protocol_word = ground arith;
  host_word = ground arith;
  host_name = ground arith;
  host_bare = ground arith;
  path_slash = refl;
  path_word = tt;
  small = ground arith;
})
