-- ===== src/Socket/Tls/Link/Certificates.antt =====
-- The certificate of a peer: what is read of it, and who gives it back.
use solusek.Base.{true, ◌∷◌, ◌≡◌, refl, Option, some, Bytes}
use solusek.Socket.Tls.Hex.{IsBytes, from_hex, from_hex-uc2hexstr}
use solusek.Socket.Tls.Link.{
  certificate, Link, PeerCertificate, get_client_certificate, close_client_certificate_x509,
  get_ssl_client_certificate_public_key,
}

-- The certificate of a peer with this subject, issuer and key.
abbrev pub peer_of : Bytes → Bytes → Bytes → Option PeerCertificate
peer_of subject issuer key = some (record { subject = subject; issuer = issuer; key = some key })

-- Under mutual authentication `getClientCertificate` gives the subject and the issuer of the peer's
-- certificate, and a text that is the key in hexadecimal digits, and gives the certificate back. The
-- pointer to it stays, so `closeClientCertificateX509` behind it gives the same one back again.
pub get-close_client_certificate :
    (s : Link) (subject issuer key : Bytes)
    → s.ssl_mutual ≡ true
    → IsBytes key
    → let got = get_client_certificate (peer_of subject issuer key) s in
      (got.1.info_subject ≡ subject)
      × (got.1.info_issuer ≡ issuer)
      × (from_hex got.1.public_key ≡ key)
      × (got.0.freed ≡ certificate s.next_reference ∷ s.freed)
      × ((close_client_certificate_x509 got.0).freed
          ≡ certificate s.next_reference ∷ certificate s.next_reference ∷ s.freed)
unfolding get_client_certificate close_client_certificate_x509 get_ssl_client_certificate_public_key
get-close_client_certificate s subject issuer key e h =
    rw e (refl, refl, from_hex-uc2hexstr key h, refl, refl)
