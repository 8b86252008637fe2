-- ===== src/Tests/Sockets.antt =====
-- TLS sockets: src/handlers/CNetHandler_openssl.cpp.
use solusek.Base.{true, false, [], ◌∷◌, none, some, Bytes, codes, str_eq, if◌then◌else◌, Bool}
use solusek.Socket.Tls.{Verify, verify_none, verify_peer, SniObj, TlsSocket, Library}
use solusek.Socket.Tls.Link.{Link}

abbrev library : Library
library = record {
  use_certificate_file = λ fn. true;
  use_private_key_file = λ fn. true;
  load_verify_locations = λ fn. true;
  load_client_ca_file = λ fn. true;
  certificates =
      λ fn. if str_eq fn (codes "a.pem") then some (some 5 ∷ none ∷ some 6 ∷ none ∷ []) else none;
  private_key = λ fn. some (some 7);
  default_depth = 100;
}

abbrev listener : TlsSocket
listener = record {
  ssl_mutual = false;
  verify = verify_none;
  verify_depth = 0;
  certificate_file_name = [];
  private_key_file_name = [];
  certificate_password = [];
  client_ca_file_name = [];
  sni_enabled = true;
  sni_list = record { host = codes "b.org"; cert = 1; key = 2; aux = []; sni_mutual = false } ∷ [];
  sni_host_name = [];
  child_ctx = none;
  freed = [];
}

-- What OpenSSL documents of a client's handshake.
abbrev handshake : Verify → (Bool → Bool) → Bool → Bool
handshake verify_none callback ok = true
handshake verify_peer callback ok = callback ok

abbrev mutual_entry : SniObj
mutual_entry = record { host = codes "a.org"; cert = 5; key = 7; aux = []; sni_mutual = true }

abbrev key_bytes : Bytes
key_bytes = 48 ∷ 130 ∷ 1 ∷ 10 ∷ []

abbrev link : Link
link = record {
  ssl = some 1;
  ctx = some 2;
  child_ctx = none;
  ctx_root = false;
  ssl_mutual = true;
  client_certificate = none;
  sni_list = [];
  next_reference = 9;
  freed = [];
}
