-- ===== src/Server.antt =====
-- src/server/CServer.cpp: the registries of the server. Serving static files is in `Server.Static`,
-- the accept loop in `Server.Threads`.
pub mod Registry
pub mod Static
pub mod Threads
pub mod Start
pub mod Destroy
pub mod Turn
pub mod Sessions
use solusek.Base.{
  ℕ, Bool, true, false, ◌&&◌, List, [], ◌∷◌, ◌++◌, Option, none, some, if◌then◌else◌, Bytes, codes,
  str_eq,
}
use solusek.Model.{Endpoint, StaticEndpoint, MimeType, new_mime_type}
use solusek.Session.{Session, new_session}
use solusek.Text.{strtolower}

pub record Server : Type 0 where
  pub endpoints : List Endpoint
  pub static_endpoints : List StaticEndpoint
  pub static_indexes : List Bytes
  pub sessions : List Session
  pub mime_types : List MimeType
  -- `Incremental`, the static counter of CSession.cpp.
  pub incremental : ℕ

unfoldable pub add_mime_type : Server → MimeType → Server
add_mime_type s t = record s { mime_types = s.mime_types ++ t ∷ [] }

unfoldable pub find_mime : List MimeType → Bytes → Option MimeType
find_mime [] ext = none
find_mime (t ∷ ts) ext = if str_eq t.ext ext then some t else find_mime ts ext

unfoldable pub get_mime_type : Server → Bytes → Option MimeType
unfolding find_mime
get_mime_type s ext = find_mime s.mime_types ext

unfoldable pub erase_mime : List MimeType → Bytes → List MimeType
erase_mime [] ext = []
erase_mime (t ∷ ts) ext = if str_eq t.ext ext then ts else t ∷ erase_mime ts ext

unfoldable pub remove_mime_type : Server → Bytes → Server
unfolding erase_mime
remove_mime_type s ext = record s { mime_types = erase_mime s.mime_types ext }

unfoldable pub add_all : Server → List MimeType → Server
unfolding add_mime_type
add_all s [] = s
add_all s (t ∷ ts) = add_all (add_mime_type s t) ts

abbrev pub default_mime_types : List MimeType
default_mime_types =
    new_mime_type (codes "html") true []
    ∷ new_mime_type (codes "htm") true []
    ∷ new_mime_type (codes "txt") true []
    ∷ new_mime_type (codes "js") true (codes "text/javascript")
    ∷ new_mime_type (codes "css") true []
    ∷ new_mime_type (codes "png") false (codes "image/png")
    ∷ new_mime_type (codes "jpg") false (codes "image/jpeg")
    ∷ new_mime_type (codes "jpeg") false (codes "image/jpeg")
    ∷ new_mime_type (codes "gif") false (codes "image/gif")
    ∷ new_mime_type (codes "bmp") false (codes "image/bmp")
    ∷ new_mime_type (codes "svg") false (codes "image/svg")
    ∷ []

unfoldable pub add_default_mime_types : Server → Server
unfolding add_all
add_default_mime_types s = add_all s default_mime_types

-- What the constructor sets of these members.
unfoldable pub new_server : Server
unfolding add_default_mime_types
new_server = add_default_mime_types (record {
  endpoints = [];
  static_endpoints = [];
  static_indexes = [];
  sessions = [];
  mime_types = [];
  incremental = 0;
})

unfoldable pub register_endpoint : Server → Endpoint → Server
register_endpoint s ep = record s { endpoints = s.endpoints ++ ep ∷ [] }

unfoldable pub register_static_index : Server → Bytes → Server
register_static_index s name = record s { static_indexes = s.static_indexes ++ name ∷ [] }

abbrev host_of : Option Bytes → Bytes
host_of none = []
host_of (some h) = strtolower h

unfoldable pub add_static_directory : Server → Bytes → Option Bytes → Server
add_static_directory s path host = record s {
  static_endpoints = s.static_endpoints ++ record { host = host_of host; path = path } ∷ [];
}

unfoldable pub find_endpoint : List Endpoint → Bytes → Bytes → Option Endpoint
find_endpoint [] path method = none
find_endpoint (e ∷ es) path method =
    if str_eq e.path path && str_eq e.method method then some e else find_endpoint es path method

unfoldable pub get_endpoint : Server → Bytes → Bytes → Option Endpoint
unfolding find_endpoint
get_endpoint s path method = find_endpoint s.endpoints path method

-- `startSession`, at the time `now`.
unfoldable pub start_session : Server → ℕ → Server × Session
unfolding new_session
start_session s now =
    let (ses, next) = new_session now s.incremental in
    (record s { sessions = s.sessions ++ ses ∷ []; incremental = next }, ses)

unfoldable pub find_session : List Session → Bytes → Option Session
find_session [] id = none
find_session (s ∷ ss) id = if str_eq s.id id then some s else find_session ss id

unfoldable pub get_session : Server → Bytes → Option Session
unfolding find_session
get_session s id = find_session s.sessions id

unfoldable pub erase_session : List Session → Bytes → List Session
erase_session [] id = []
erase_session (s ∷ ss) id = if str_eq s.id id then ss else s ∷ erase_session ss id

-- `destroySession`: the pointer is erased, the object is not deleted.
unfoldable pub destroy_session : Server → Bytes → Server
unfolding erase_session
destroy_session s id = record s { sessions = erase_session s.sessions id }
