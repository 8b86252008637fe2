-- ===== src/Server/Start.antt =====
-- `CServer`: its settings, `loadConfig`, and `run` up to the accept loop.
use solusek.Base.{
  ℕ, Bool, true, false, [], ◌∷◌, ◌≡◌, ◌≢◌, refl, Option, none, some, if◌then◌else◌, Bytes, is_empty,
  ℤ, pos,
}
use solusek.Config.{ConfigNodes, load_config}
use solusek.Files.{Disk}
use solusek.Server.Threads.{default_thread_limit}
use solusek.Socket.Tls.{
  verify_none, TlsSocket, Library, set_ssl_mutual, set_ssl_certificate_password,
  set_ssl_certificate_file, set_ssl_private_key_file, setup_ssl,
}

pub record Settings : Type 0 where
  pub config : Option ConfigNodes
  pub secure : Bool
  pub listen_port : ℤ
  pub cert_file_name : Bytes
  pub cert_password : Bytes
  pub key_file_name : Bytes
  pub thread_limit : ℕ

-- What the constructor sets.
unfoldable pub new_settings : Settings
new_settings = record {
  config = none;
  secure = false;
  listen_port = pos 80;
  cert_file_name = [];
  cert_password = [];
  key_file_name = [];
  thread_limit = default_thread_limit;
}

unfoldable pub set_secure : Bool → Settings → Settings
set_secure on s = record s { secure = on }

unfoldable pub set_listen_port : ℤ → Settings → Settings
set_listen_port port s = record s { listen_port = port }

unfoldable pub set_thread_limit : ℕ → Settings → Settings
set_thread_limit limit s = record s { thread_limit = limit }

unfoldable pub set_certificate : Bytes → Bytes → Bytes → Settings → Settings
set_certificate pem key password s = record s {
  cert_file_name = pem;
  cert_password = password;
  key_file_name = key;
}

-- The file read and parsed; `none` if the fuel ran out.
abbrev pub with_config : Settings → Option (ConfigNodes × Bytes) → Option (Settings × Bool)
with_config s none = none
with_config s (some (nodes, rest)) = some (record s { config = some nodes }, true)

-- `loadConfig`: a file that cannot be opened leaves no configuration.
unfoldable pub load_config_file : ℕ → ℕ → Disk → Bytes → Settings → Option (Settings × Bool)
unfolding load_config
load_config_file fuel stray disk file_name s = elim (disk.open_file file_name) [
  | none ↦ some (record s { config = none }, false)
  | some content ↦ with_config s (load_config fuel stray content)
]

-- A TLS socket as its constructor leaves it.
unfoldable pub new_socket : Library → TlsSocket
unfolding setup_ssl
new_socket l = setup_ssl l false (record {
  ssl_mutual = false;
  verify = verify_none;
  verify_depth = 0;
  certificate_file_name = [];
  private_key_file_name = [];
  certificate_password = [];
  client_ca_file_name = [];
  sni_enabled = false;
  sni_list = [];
  sni_host_name = [];
  child_ctx = none;
  freed = [];
})

-- A call that is made for text that is not empty.
abbrev pub unless_empty : Bytes → (TlsSocket → TlsSocket) → TlsSocket → TlsSocket
unless_empty text call t = if is_empty text then t else call t

-- `if (Secure)`: what the library answers is not looked at.
unfoldable pub secure_socket : Library → Settings → TlsSocket → TlsSocket
unfolding set_ssl_mutual set_ssl_certificate_password set_ssl_certificate_file
    set_ssl_private_key_file
secure_socket l s t =
    let t1 = set_ssl_mutual false t in
    let t2 =
      unless_empty s.cert_password (λ u. set_ssl_certificate_password s.cert_password u) t1 in
    let t3 =
      unless_empty s.cert_file_name (λ u. (set_ssl_certificate_file l s.cert_file_name u).0) t2 in
    unless_empty s.key_file_name (λ u. (set_ssl_private_key_file l s.key_file_name u).0) t3

-- `run` up to the loop: the main socket, with its settings if it is a secure one, or `E_ERROR_UNKNOWN`.
pub data Begun : Type 0 where
  error_unknown : Begun
  listening : Option TlsSocket → Begun

unfoldable pub begin_run : Library → (ℤ → Bool) → Settings → Begun
unfolding new_socket secure_socket
begin_run l bind s =
    if bind s.listen_port
    then listening (if s.secure then some (secure_socket l s (new_socket l)) else none)
    else error_unknown

-- A secure server whose port can be bound listens with the certificate's and the key's file that were
-- set, if they have names, and with verification of its clients off, whatever the library answers:
-- also if neither file could be loaded.
pub begin_run-secure :
    (l : Library) (bind : ℤ → Bool) (s : Settings) (pem key password : Bytes)
    → bind s.listen_port ≡ true
    → pem ≢ []
    → key ≢ []
    → begin_run l bind (set_secure true (set_certificate pem key password s))
      ≡ listening (
          some (record (new_socket l) {
            verify = verify_none;
            verify_depth = 0;
            certificate_file_name = pem;
            private_key_file_name = key;
            certificate_password = password;
          }))
unfolding begin_run set_secure set_certificate
begin_run-secure l bind s [] key password e ne ne' = absurd (ne refl)
begin_run-secure l bind s (x ∷ pem) [] password e ne ne' = absurd (ne' refl)
begin_run-secure l bind s (x ∷ pem) (y ∷ key) [] e ne ne' = rw e refl
begin_run-secure l bind s (x ∷ pem) (y ∷ key) (z ∷ password) e ne ne' = rw e refl
