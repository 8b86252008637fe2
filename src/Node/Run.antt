-- ===== src/Node/Run.antt =====
-- `CNode::run`: from the connection to the response. What lies outside the repository is the record
-- `Outside`: the callbacks that an application registers, the clock's text, the files.
pub mod Gets
pub mod Answer
pub mod Safe
pub mod Changes
pub mod File
use solusek.Base.{
  ℕ, Bool, true, false, List, [], ◌∷◌, Option, none, some, Bytes, codes, c_str, is_empty, pos,
}
use solusek.Model.{VarVal, Endpoint, Request, Response, new_response, error_response}
use solusek.Socket.{Input, Output, output}
use solusek.Files.{Disk, Log}
use solusek.Server.{Server, get_endpoint}
use solusek.Server.Static.{Search, no_fuel, answer, get_static_endpoint}
use solusek.Node.Header.{
  RequestLine, HeaderRead, closed, malformed, no_fuel, header, read_header, get_header,
}
use solusek.Node.Body.{BodyRead, closed, no_fuel, body, read_body}
use solusek.Node.Cookies.{Jar, parse_cookies}
use solusek.Node.Response.{write_response}

pub record Outside : Type 0 where
  -- The function behind a callback's number.
  pub call : ℕ → Server → Request → Server × Response
  pub asctime : Bytes
  pub disk : Disk
  -- The byte that `s[s.size() - 1]` reads for an empty `s`.
  pub stray : ℕ

-- What a run leaves behind. The socket is closed and deleted.
pub record Ran : Type 0 where
  pub server : Server
  pub written : Output
  pub log : Log

-- The request as read: header lines, first line, body.
pub record Received : Type 0 where
  pub headers : List VarVal
  pub line : RequestLine
  pub text : Bytes

abbrev pub value_or_empty : Option Bytes → Bytes
value_or_empty none = []
value_or_empty (some v) = v

abbrev pub host_value : Received → Bytes
host_value q = value_or_empty (get_header q.headers (codes "Host"))

unfoldable pub read_cookies : Option Bytes → Option Jar
read_cookies none = some (record { cookies = []; sid = [] })
read_cookies (some v) = parse_cookies v

-- The request that the callback is given.
abbrev pub new_request : Received → Jar → Request
new_request q jar = record {
  cookies = jar.cookies;
  body = q.text;
  host = host_value q;
  sid = jar.sid;
  query_string = q.line.query_string;
  ssl_client_cn = value_or_empty (get_header q.headers (codes "X-SSL-Client-CN"));
}

-- Writes a response; the `int` that a lost connection throws is caught.
abbrev pub respond : Outside → Server → Log → Response → Output → Ran
respond w s l r o = record { server = s; written = output (write_response w.asctime r o); log = l }

unfoldable pub run_callback :
    Outside → Server → Log → Received → Endpoint → Output → Option Jar → Option Ran
run_callback w s l q ep o none = none
run_callback w s l q ep o (some jar) =
    let (s', r) = w.call ep.callback s (new_request q jar) in some (respond w s' l r o)

unfoldable pub run_missing : Outside → Server → Log → Output → Option Response → Option Ran
run_missing w s l o none = none
run_missing w s l o (some r) = some (respond w s l r o)

-- The response with a static file: its date stays empty.
abbrev pub static_response : Endpoint → Response
static_response ep = record new_response {
  code = pos 200;
  body = ep.contents;
  content_type = ep.content_type;
}

unfoldable pub run_static : Outside → Server → Output → Search → Option Ran
unfolding run_missing
run_static w s o no_fuel = none
run_static w s o (answer (some ep) l) = some (respond w s l (static_response ep) o)
run_static w s o (answer none l) =
    run_missing w s l o (error_response (pos 404) (codes "Endpoint not found."))

unfoldable pub run_found :
    ℕ → Outside → Server → Log → Received → Output → Option Endpoint → Option Ran
unfolding run_callback run_static
run_found fuel w s l q o (some ep) =
    run_callback w s l q ep o (read_cookies (get_header q.headers (codes "Cookie")))
run_found fuel w s l q o none = run_static w s o (
    get_static_endpoint fuel s w.disk w.stray (c_str q.line.method) (some (c_str (host_value q)))
      (c_str q.line.path) l)

-- Behind the two reads.
unfoldable pub run_request : ℕ → Outside → Server → Log → Output → Received → Option Ran
unfolding run_found
run_request fuel w s l o q = elim (is_empty q.line.path) [
  | true ↦ some (record { server = s; written = o; log = l })
  | false ↦ run_found fuel w s l q o (get_endpoint s (c_str q.line.path) (c_str q.line.method))
]

unfoldable pub run_body :
    ℕ → Outside → Server → Log → Output → List VarVal → RequestLine → BodyRead → Option Ran
unfolding run_request
run_body fuel w s l o headers line no_fuel = none
-- The caught `int` empties `Path`.
run_body fuel w s l o headers line closed = some (record { server = s; written = o; log = l })
run_body fuel w s l o headers line (body text i) =
    run_request fuel w s l o (record { headers = headers; line = line; text = text })

unfoldable pub run_header : ℕ → ℕ → Outside → Server → Log → Output → HeaderRead → Option Ran
unfolding run_body
run_header reads fuel w s l o no_fuel = none
run_header reads fuel w s l o closed = some (record { server = s; written = o; log = l })
run_header reads fuel w s l o malformed = some (record { server = s; written = o; log = l })
run_header reads fuel w s l o (header headers line i) =
    run_body fuel w s l o headers line (read_body reads headers i)

-- `reads` bounds the rounds of the reading loops, `fuel` the search for a static file; `none` means
-- that one of them ran out.
unfoldable pub run : ℕ → ℕ → Outside → Server → Log → Input → Output → Option Ran
unfolding run_header
run reads fuel w s l i o = run_header reads fuel w s l o (read_header reads i)
