-- ===== src/Socket/Tls/Peer.antt =====
-- Which certificate a client is shown, and which of a peer's are accepted.
use solusek.Base.{
  ℕ, Bool, true, false, List, [], ◌∷◌, ◌++◌, ◌≡◌, refl, ap, ◌∙◌, Option, none, some, Bytes, str_eq,
  str_eq_refl, All,
}
use solusek.Socket.Tls.{
  Verify, verify_none, verify_peer, verify_for, SniObj, Child, child_of, TlsSocket, Library,
  find_sni, sni_callback, aux_loop, key_file_or, add_ssl_certificate_to_sni, verify_callback,
  set_ssl_mutual,
}

abbrev pub NotHost : Bytes → List SniObj → Type 0
NotHost name = All (λ (o : SniObj). str_eq name o.host ≡ false)

find_sni-append :
    (name : Bytes) (before after : List SniObj) (o : SniObj)
    → NotHost name before
    → o.host ≡ name
    → find_sni name (before ++ o ∷ after) ≡ some o
unfolding find_sni
find_sni-append name [] after o h e = rw e (rw (str_eq_refl name) refl)
find_sni-append name (p ∷ before) after o h e = rw (h.0) (find_sni-append name before after o h.1 e)

-- The certificates that a list has where it has one.
pub data Present : List (Option ℕ) → List ℕ → Type 0 where
  nil : Present [] []
  skip : {cs : List (Option ℕ)} {chain : List ℕ} → Present cs chain → Present (none ∷ cs) chain
  keep :
      {cs : List (Option ℕ)} {chain : List ℕ} (c : ℕ)
      → Present cs chain
      → Present (some c ∷ cs) (c ∷ chain)

aux_loop-Present : (cs : List (Option ℕ)) (chain : List ℕ) → Present cs chain → aux_loop cs ≡ chain
unfolding aux_loop
aux_loop-Present _ _ nil = refl
aux_loop-Present _ _ (skip h) = aux_loop-Present _ _ h
aux_loop-Present _ _ (keep c h) = ap (λ t. c ∷ t) (aux_loop-Present _ _ h)

-- The context that is chosen for a client that asks for a host, when a certificate was added for the
-- host, whose file and key could be read, and none was added for it before, holds that certificate,
-- the others in its file in their order, and its key; what has no certificate in the file is passed
-- over, and the host's name is kept.
pub sni_callback-add :
    (l : Library) (t : TlsSocket) (host filename : Bytes) (keyfilename : Option Bytes)
    (is_mutual : Bool) (cert key : ℕ) (cs : List (Option ℕ)) (chain : List ℕ)
    → l.certificates filename ≡ some (some cert ∷ cs)
    → l.private_key (key_file_or filename keyfilename) ≡ some (some key)
    → NotHost host t.sni_list
    → Present cs chain
    → let added = add_ssl_certificate_to_sni l host filename keyfilename is_mutual t in
      (child : Child) × (sni_callback (some host) added
        ≡ (record added { child_ctx = some child; sni_host_name = host }, true))
      × (child.certificate ≡ cert)
      × (child.chain ≡ chain)
      × (child.private_key ≡ key)
unfolding sni_callback add_ssl_certificate_to_sni
sni_callback-add l t host filename keyfilename is_mutual cert key cs chain read keyed new there =
    let o : SniObj = record {
      host = host;
      cert = cert;
      key = key;
      aux = aux_loop cs;
      sni_mutual = is_mutual;
    } in
    let is : add_ssl_certificate_to_sni l host filename keyfilename is_mutual t
        ≡ record t { sni_list = t.sni_list ++ o ∷ [] } =
      rw (add_ssl_certificate_to_sni, read, keyed) refl in
    (
      child_of o,
      rw is (rw (sni_callback, find_sni-append host t.sni_list [] o new refl) refl),
      refl,
      aux_loop-Present cs chain there,
      refl,
    )

-- If a handshake goes on under `SSL_VERIFY_NONE`, and under `SSL_VERIFY_PEER` when the callback says
-- so, as OpenSSL documents it, then it goes on with every peer, whatever the check of the peer's
-- certificate has found: on a socket set to mutual authentication or not, and in the context of
-- every entry for a host name.
pub verify_callback-all :
    (handshake : Verify → (Bool → Bool) → Bool → Bool) (t : TlsSocket) (o : SniObj)
    (enabled ok : Bool)
    → handshake verify_none verify_callback ok ≡ true
    → handshake verify_peer verify_callback ok ≡ verify_callback ok
    → (handshake (set_ssl_mutual enabled t).verify verify_callback ok ≡ true)
      × (handshake (child_of o).child_verify verify_callback ok ≡ true)
verify_callback-all handshake t o enabled ok none_h peer_h =
    (unfold set_ssl_mutual in (go enabled), go o.sni_mutual)
  where
    go : (b : Bool) → handshake (verify_for b) verify_callback ok ≡ true
    go true = peer_h ∙ (unfold verify_callback in refl)
    go false = none_h
