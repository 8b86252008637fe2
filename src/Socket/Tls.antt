-- ===== src/Socket/Tls.antt =====
-- src/handlers/CNetHandler_openssl.cpp: the settings of a TLS socket, its certificates by host name
-- (SNI) and what it makes of a peer's certificate. Certificates, keys and files are those of OpenSSL
-- and the file system: certificates and keys are numbers, and `freed` lists those given back.
pub mod Hex
pub mod Peer
pub mod Link
use solusek.Base.{
  ℕ, ◌+◌, ◌/◌, ◌%◌, Bool, true, false, List, [], ◌∷◌, ◌++◌, Option, none, some, ltb, if◌then◌else◌,
  Bytes, str_eq,
}

-- The modes of `SSL_CTX_set_verify` that the code sets.
pub data Verify : Type 0 where
  verify_none : Verify
  -- `SSL_VERIFY_PEER | SSL_VERIFY_CLIENT_ONCE` with `verify_callback`.
  verify_peer : Verify

pub record SniObj : Type 0 where
  pub host : Bytes
  pub cert : ℕ
  pub key : ℕ
  pub aux : List ℕ
  pub sni_mutual : Bool

-- A context that the callback makes for a connection.
pub record Child : Type 0 where
  pub certificate : ℕ
  pub chain : List ℕ
  pub private_key : ℕ
  pub child_verify : Verify
  pub child_depth : ℕ

pub record TlsSocket : Type 0 where
  pub ssl_mutual : Bool
  pub verify : Verify
  pub verify_depth : ℕ
  pub certificate_file_name : Bytes
  pub private_key_file_name : Bytes
  pub certificate_password : Bytes
  pub client_ca_file_name : Bytes
  pub sni_enabled : Bool
  pub sni_list : List SniObj
  pub sni_host_name : Bytes
  pub child_ctx : Option Child
  pub freed : List ℕ

-- What OpenSSL answers: whether the files load, and what stands in them.
pub record Library : Type 0 where
  pub use_certificate_file : Bytes → Bool
  pub use_private_key_file : Bytes → Bool
  pub load_verify_locations : Bytes → Bool
  pub load_client_ca_file : Bytes → Bool
  -- The certificates that the calls of `PEM_read_X509` find up to the end of the file, `none` where
  -- one finds nothing; or `none` for a file that cannot be opened.
  pub certificates : Bytes → Option (List (Option ℕ))
  -- `PEM_read_PrivateKey`, for a file that can be opened.
  pub private_key : Bytes → Option (Option ℕ)
  -- The depth that a new context verifies to.
  pub default_depth : ℕ

abbrev pub verify_for : Bool → Verify
verify_for enabled = if enabled then verify_peer else verify_none

abbrev pub depth_for : Bool → ℕ
depth_for enabled = if enabled then 1 else 0

unfoldable pub set_ssl_mutual : Bool → TlsSocket → TlsSocket
set_ssl_mutual enabled t = record t {
  ssl_mutual = enabled;
  verify = verify_for enabled;
  verify_depth = depth_for enabled;
}

-- The name is kept also for a file that does not load.
unfoldable pub set_ssl_certificate_file : Library → Bytes → TlsSocket → TlsSocket × Bool
set_ssl_certificate_file l fn t =
    (record t { certificate_file_name = fn }, l.use_certificate_file fn)

unfoldable pub set_ssl_private_key_file : Library → Bytes → TlsSocket → TlsSocket × Bool
set_ssl_private_key_file l fn t =
    (record t { private_key_file_name = fn }, l.use_private_key_file fn)

unfoldable pub set_ssl_certificate_password : Bytes → TlsSocket → TlsSocket
set_ssl_certificate_password password t = record t { certificate_password = password }

unfoldable pub set_ssl_client_ca_file : Library → Bytes → TlsSocket → TlsSocket × Bool
set_ssl_client_ca_file l fn t =
    let t' : TlsSocket = record t { client_ca_file_name = fn } in
    if l.load_verify_locations fn
    then (if l.load_client_ca_file fn then (record t' { verify_depth = 1 }, true) else (t', false))
    else (t', false)

-- A new context verifies nothing; with `re` the settings are put into it again.
unfoldable pub setup_ssl : Library → Bool → TlsSocket → TlsSocket
unfolding set_ssl_mutual set_ssl_certificate_password set_ssl_certificate_file
    set_ssl_private_key_file
setup_ssl l re t =
    let t1 : TlsSocket = record t {
      verify = verify_none;
      verify_depth = l.default_depth;
      child_ctx = none;
    } in
    let t2 =
      set_ssl_certificate_password t1.certificate_password (set_ssl_mutual t1.ssl_mutual t1) in
    let t3 = (set_ssl_certificate_file l t2.certificate_file_name t2).0 in
    if re then (set_ssl_private_key_file l t3.private_key_file_name t3).0 else t1

unfoldable pub set_sni_enabled : Bool → TlsSocket → TlsSocket
set_sni_enabled enabled t = record t { sni_enabled = enabled }

-- The context for an entry.
abbrev pub child_of : SniObj → Child
child_of o = record {
  certificate = o.cert;
  chain = o.aux;
  private_key = o.key;
  child_verify = verify_for o.sni_mutual;
  child_depth = depth_for o.sni_mutual;
}

unfoldable pub find_sni : Bytes → List SniObj → Option SniObj
find_sni name [] = none
find_sni name (o ∷ os) = if str_eq name o.host then some o else find_sni name os

-- `_sni_callback`: the client's host name, if it sent one; whether the result is OK. The mode of
-- verification is set on the context behind `SSL_set_SSL_CTX`: it is the mode of the context, and not
-- that of the connection, which took its own from the context of the socket.
unfoldable pub sni_callback : Option Bytes → TlsSocket → TlsSocket × Bool
unfolding find_sni
sni_callback none t = (t, false)
sni_callback (some name) t = elim (find_sni name t.sni_list) [
  | none ↦ (t, false)
  | some o ↦ (record t { child_ctx = some (child_of o); sni_host_name = name }, true)
]

-- The certificates behind the first.
unfoldable pub aux_loop : List (Option ℕ) → List ℕ
aux_loop [] = []
aux_loop (none ∷ cs) = aux_loop cs
aux_loop (some c ∷ cs) = c ∷ aux_loop cs

-- With the key's file read.
abbrev pub with_key : Bytes → ℕ → List ℕ → Bool → Option (Option ℕ) → TlsSocket → TlsSocket
with_key host cert aux is_mutual none t = t
with_key host cert aux is_mutual (some none) t = record t { freed = cert ∷ t.freed }
with_key host cert aux is_mutual (some (some key)) t = record t {
  sni_list =
      t.sni_list
      ++ record { host = host; cert = cert; key = key; aux = aux; sni_mutual = is_mutual } ∷ [];
}

-- The key's file is the certificate's if none is given.
abbrev pub key_file_or : Bytes → Option Bytes → Bytes
key_file_or filename none = filename
key_file_or filename (some keyfilename) = keyfilename

unfoldable pub add_ssl_certificate_to_sni :
    Library → Bytes → Bytes → Option Bytes → Bool → TlsSocket → TlsSocket
unfolding aux_loop
add_ssl_certificate_to_sni l host filename keyfilename is_mutual t =
    elim (l.certificates filename) [
      | none ↦ t
      | some [] ↦ t
      | some (none ∷ cs) ↦ t
      | some (some cert ∷ cs) ↦
          with_key host cert (aux_loop cs) is_mutual
            (l.private_key (key_file_or filename keyfilename)) t
    ]

-- What an entry gives back: its certificate, its key, then the chain.
abbrev pub objects : SniObj → List ℕ
objects o = o.cert ∷ o.key ∷ o.aux

unfoldable pub free_all : List SniObj → List ℕ → List ℕ
free_all [] freed = freed
free_all (o ∷ os) freed = free_all os (freed ++ objects o)

-- `SNIList.empty()` only tests.
unfoldable pub cleanup_sni : TlsSocket → TlsSocket
unfolding free_all
cleanup_sni t = record t { freed = free_all t.sni_list t.freed }

-- `verify_callback`
unfoldable pub verify_callback : Bool → Bool
verify_callback preverify_ok = true

-- `%02x`
abbrev pub hex_char : ℕ → ℕ
hex_char d = if ltb d 10 then b'0' + d else 87 + d

-- `uc2hexstr`
unfoldable pub uc2hexstr : Bytes → Bytes
uc2hexstr [] = []
uc2hexstr (b ∷ buf) = hex_char (b / 16) ∷ hex_char (b % 16) ∷ uc2hexstr buf
