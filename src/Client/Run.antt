-- ===== src/Client/Run.antt =====
-- `CClient::runRequest` as a whole: the settings of the socket, the request, the response.
pub mod Answered
use solusek.Base.{
  ℕ, Bool, true, false, Option, none, some, Bytes, [], is_empty, if◌then◌else◌, ℤ, pos, codes,
}
use solusek.Model.{Response, new_response}
use solusek.Socket
use solusek.Socket.{Input, Output, Written, wrote, threw}
use solusek.Client.{Client, set_use_ssl}
use solusek.Client.Url.{Target, parse_endpoint}
use solusek.Client.Request.{write_request}
use solusek.Client.Reply.{Reply, read_reply}

-- What `runRequest` sets on its socket before it connects; keys and certificates by their address.
pub record Settings : Type 0 where
  pub ssl : Bool
  pub certificate : Option Bytes
  pub key_file : Option Bytes
  pub key_password : Option Bytes
  pub certificate_mem : Option ℕ
  pub key_mem : Option ℕ
  pub ssl_mutual : Bool
  pub timeout : ℤ

-- What lies outside: whether the host is found and `::connect` returns 0, the connection, and what `d2i_PKCS12_fp` and `PKCS12_parse` make of a file and
-- a password, the key and the certificate; `none` if the file or the password is not right.
pub record Peer : Type 0 where
  pub connected : Bool
  pub input : Input
  pub output : Output
  pub parse_pkcs12 : Bytes → Bytes → Option (ℕ × ℕ)
  -- The `chunkSize` that was never set.
  pub stray : ℕ

abbrev unless_empty : Bytes → Bytes → Option Bytes
unless_empty test s = if is_empty test then none else some s

abbrev pub or_else : Option ℕ → Option ℕ → Option ℕ
or_else none o = o
or_else (some p) o = some p

abbrev pub from_file : Client → Peer → Option (ℕ × ℕ)
from_file c w =
    if is_empty c.pkcs12_file_name
    then none
    else w.parse_pkcs12 c.pkcs12_file_name c.pkcs12_password

abbrev pub key_of : Option (ℕ × ℕ) → Option ℕ
key_of none = none
key_of (some (key, cert)) = some key

abbrev pub cert_of : Option (ℕ × ℕ) → Option ℕ
cert_of none = none
cert_of (some (key, cert)) = some cert

-- A certificate or key in memory is set after the one of the file, and replaces it.
unfoldable pub socket_settings : Client → Peer → Settings
socket_settings c w = record {
  ssl = c.use_ssl;
  certificate = unless_empty c.cert_file_name c.cert_file_name;
  key_file = unless_empty c.key_file_name c.key_file_name;
  key_password = unless_empty c.key_file_name c.key_password;
  certificate_mem = or_else c.cert_mem (cert_of (from_file c w));
  key_mem = or_else c.key_mem (key_of (from_file c w));
  ssl_mutual = c.use_ssl;
  timeout = c.timeout;
}

-- What a call leaves: the client, the socket's settings and the bytes out, and the response.
pub record Finished : Type 0 where
  pub client : Client
  pub socket : Option (Settings × Target)
  pub output : Output
  pub response : Response

-- `ret`
abbrev pub response_of : Reply → Response
response_of r = record new_response {
  code = r.code;
  body = r.resp;
  content_type = r.content_type;
  location = r.location;
}

-- What is returned when nothing is read.
abbrev pub nothing_read : Reply
nothing_read = record {
  code = pos 0;
  resp = [];
  content_type = codes "application/json";
  location = [];
}

-- Behind the request: the `int` of a failed write is caught.
unfoldable pub read_after : ℕ → Peer → Bool → Written → Option Reply
unfolding read_reply
read_after fuel w ignore (threw o) = some nothing_read
read_after fuel w true (wrote o) = some nothing_read
read_after fuel w false (wrote o) = read_reply fuel w.stray w.input

finish : Client → Peer → Target → Written → Option Reply → Option Finished
unfolding socket_settings
finish c w t written none = none
finish c w t written (some r) = some (record {
  client = c;
  socket = some (socket_settings c w, t);
  output = Socket.output written;
  response = response_of r;
})

-- `UseSSL = true` for https is kept in the client.
abbrev pub for_target : Client → Target → Client
for_target c t = if t.secure then record c { use_ssl = true } else c

-- `connect` makes the `SSL` of the socket only behind a connection that is made; its result is not
-- read, and without one `SSL_write` is given a null pointer.
abbrev pub lacks_ssl : Client → Peer → Bool
lacks_ssl c w = if w.connected then false else c.use_ssl

pub run_target : ℕ → Peer → Client → Bytes → Bool → Target → Option Finished
unfolding write_request read_after finish
run_target fuel w c body ignore t =
    let c' = for_target c t in
    let written = write_request c' t body w.output in
    if lacks_ssl c' w then none else finish c' w t written (read_after fuel w ignore written)

-- `none` means that the fuel for reading the response ran out, or that the code uses the null pointer.
unfoldable pub run_request : ℕ → Peer → Client → Bytes → Bool → Option Finished
unfolding parse_endpoint run_target
run_request fuel w c body ignore = elim (parse_endpoint c.endpoint) [
  | none ↦ some (record { client = c; socket = none; output = w.output; response = new_response })
  | some t ↦ run_target fuel w c body ignore t
]
