-- ===== src/Socket/Tls/Link.antt =====
-- src/handlers/CNetHandler_openssl.cpp: the objects of OpenSSL that a socket holds, and the certificate of
-- its peer. What OpenSSL answers is an argument; `freed` lists the objects that were given back.
pub mod Certificates
use solusek.Base.{
  ℕ, suc, Bool, true, false, not, ◌&&◌, List, [], ◌∷◌, ◌++◌, ◌≡◌, refl, ap, Option, none, some,
  if◌then◌else◌, ◌==◌, Bytes, codes, ℤ, pos, negsuc, take, drop, length, c_str, ◌-◌,
}
use solusek.Socket.Tls.{SniObj, free_all, uc2hexstr}
use solusek.Socket.Plain.{is_socket_error}

pub data TlsObject : Type 0 where
  ssl_object : ℕ → TlsObject
  context : ℕ → TlsObject
  -- A reference to a certificate, by its number: each call of `SSL_get_peer_certificate` takes one.
  certificate : ℕ → TlsObject
  -- A certificate or key of the list by host names.
  sni_object : ℕ → TlsObject

pub record Link : Type 0 where
  pub ssl : Option ℕ
  pub ctx : Option ℕ
  pub child_ctx : Option ℕ
  pub ctx_root : Bool
  pub ssl_mutual : Bool
  pub client_certificate : Option ℕ
  pub sni_list : List SniObj
  pub next_reference : ℕ
  pub freed : List TlsObject

-- What a certificate says; the key is what `i2d_PublicKey` writes, if there is one.
pub record PeerCertificate : Type 0 where
  pub subject : Bytes
  pub issuer : Bytes
  pub key : Option Bytes

-- `CertificateInfo`
pub record CertificateInfo : Type 0 where
  pub info_subject : Bytes
  pub info_issuer : Bytes
  pub public_key : Bytes

abbrev pub no_info : CertificateInfo
no_info = record { info_subject = []; info_issuer = []; public_key = [] }

-- `isConnected`: what `recv` with `MSG_PEEK` returns.
unfoldable pub is_connected : ℤ → Bool
is_connected err = not (is_socket_error err)

unfoldable pub set_ctx : Option ℕ → Link → Link
set_ctx ctx s = record s { ctx = ctx }

unfoldable pub set_child_ctx : Option ℕ → Link → Link
set_child_ctx ctx s = record s { child_ctx = ctx }

-- What is asked of OpenSSL for a handshake.
pub data Handshake : Type 0 where
  accepting : ℤ → Handshake
  connecting : ℤ → Option Bytes → Handshake

-- `setupSSLSocket`: `made` is the object of `SSL_new`. How the handshake ends is printed at most.
unfoldable pub setup_ssl_socket : ℕ → ℤ → Bool → Option Bytes → Link → Link × Handshake
setup_ssl_socket made sid accept host s =
    (record s { ssl = some made }, (if accept then accepting sid else connecting sid host))

-- What the library returns is tested against 0.
abbrev pub is_positive : ℤ → Bool
is_positive (pos n) = not (n == 0)
is_positive (negsuc n) = false

unfoldable pub set_ssl_certificate_mem : (ℕ → ℤ) → ℕ → Bool
set_ssl_certificate_mem use_certificate cert = is_positive (use_certificate cert)

unfoldable pub set_ssl_private_key_file_mem : (ℕ → ℤ) → ℕ → Bool
set_ssl_private_key_file_mem use_private_key key = is_positive (use_private_key key)

-- `pem_passwd_cb`: at most `size - 1` bytes of the password; `size` is positive.
unfoldable pub pem_passwd_cb : Bytes → ℕ → Bytes
pem_passwd_cb passwd size = take (size - 1) (c_str passwd)

-- `getSSLClientCertificatePublicKey`
unfoldable pub get_ssl_client_certificate_public_key : Option Bytes → Bytes
unfolding uc2hexstr
get_ssl_client_certificate_public_key none = []
get_ssl_client_certificate_public_key (some key) = uc2hexstr key

-- `openClientCertificateX509`, where the peer has this certificate.
unfoldable pub open_client_certificate_x509 : Option PeerCertificate → Link → Link × Option ℕ
open_client_certificate_x509 none s = (record s { client_certificate = none }, none)
open_client_certificate_x509 (some c) s = (
  record s { client_certificate = some s.next_reference; next_reference = suc s.next_reference },
  some s.next_reference,
)

abbrev pub give_back : Option ℕ → (ℕ → TlsObject) → List TlsObject → List TlsObject
give_back none object freed = freed
give_back (some n) object freed = object n ∷ freed

-- `closeClientCertificateX509`: the pointer stays.
unfoldable pub close_client_certificate_x509 : Link → Link
close_client_certificate_x509 s = record s {
  freed = give_back s.client_certificate certificate s.freed;
}

abbrev pub info_of : Option PeerCertificate → CertificateInfo
info_of none = no_info
info_of (some c) = record {
  info_subject = c.subject;
  info_issuer = c.issuer;
  public_key = get_ssl_client_certificate_public_key c.key;
}

-- `getClientCertificate`: only under mutual authentication. The pointer stays.
unfoldable pub get_client_certificate : Option PeerCertificate → Link → Link × CertificateInfo
unfolding get_ssl_client_certificate_public_key open_client_certificate_x509
    close_client_certificate_x509
get_client_certificate peer s =
    if s.ssl_mutual
    then (close_client_certificate_x509 (open_client_certificate_x509 peer s).0, info_of peer)
    else (s, no_info)

abbrev all_sni : List ℕ → List TlsObject
all_sni [] = []
all_sni (n ∷ ns) = sni_object n ∷ all_sni ns

-- `cleanupSSL`; the entries by host name stay in their list.
unfoldable pub cleanup_ssl : Link → Link
unfolding free_all
cleanup_ssl s = record s {
  ssl = none;
  ctx = none;
  freed =
      give_back (if s.ctx_root then s.ctx else none) context
        (give_back s.ssl ssl_object (all_sni (free_all s.sni_list []) ++ s.freed));
}
