-- ===== src/Server/Destroy.antt =====
-- The destructor of `CServer`: what it deletes and in which order, from the back of each vector. What the
-- destructors of the configuration, of a node and of the database do in turn is not in this file.
use solusek.Base.{
  ℕ, Bool, List, [], ◌∷◌, ◌++◌, map, ◌≡◌, refl, ap, Option, none, some, All, All-append, reverse,
  if◌then◌else◌,
}
use mathlib.Core.List.{reverse-cons}
use solusek.Model.{Endpoint, StaticEndpoint}
use solusek.Session.{Session, destroy}
use solusek.Server.{Server}

-- What the destructor does; objects by value or by their number.
pub data Done : Type 0 where
  config_deleted : Done
  -- `pthread_join` of a node's thread, which returns when the thread has ended.
  node_joined : ℕ → Done
  node_deleted : ℕ → Done
  endpoint_deleted : Endpoint → Done
  -- With the objects that the session frees.
  session_deleted : List ℕ → Done
  directory_deleted : StaticEndpoint → Done
  database_deleted : Done

-- `while(!Nodes.empty())`, from the back: the vector that is left, and what was done.
unfoldable pub delete_nodes : List ℕ → List ℕ × List Done
delete_nodes [] = ([], [])
delete_nodes (n ∷ nodes) =
    let (left, done) = delete_nodes nodes in (left, node_joined n ∷ node_deleted n ∷ done)

-- `while(!Endpoints.empty())`, from the back.
unfoldable pub delete_endpoints : List Endpoint → List Endpoint × List Done
delete_endpoints [] = ([], [])
delete_endpoints (ep ∷ eps) =
    let (left, done) = delete_endpoints eps in (left, endpoint_deleted ep ∷ done)

-- `while(!StaticEndpoints.empty())`, from the back.
unfoldable pub delete_directories : List StaticEndpoint → List StaticEndpoint × List Done
delete_directories [] = ([], [])
delete_directories (d ∷ ds) =
    let (left, done) = delete_directories ds in (left, directory_deleted d ∷ done)

-- `while(!Sessions.empty())`, from the back: what each session frees; `none` if one frees an object
-- twice.
unfoldable pub delete_sessions : List Session → Option (List Session × List Done)
unfolding destroy
delete_sessions [] = some ([], [])
delete_sessions (ses ∷ sessions) = elim (destroy ses) [
  | none ↦ none
  | some freed ↦ elim (delete_sessions sessions) [
    | none ↦ none
    | some (left, done) ↦ some (left, session_deleted freed ∷ done)
  ]
]

-- `if (Config) delete Config;` and the same for `Database`.
abbrev pub delete_if : Bool → Done → List Done
delete_if there d = if there then d ∷ [] else []

-- The server and its nodes, as they are left, and what was done; `config` and `database` say whether the
-- two pointers are set.
unfoldable pub destroy_server : Bool → Bool → List ℕ → Server → Option (Server × List ℕ × List Done)
unfolding delete_nodes delete_endpoints delete_sessions delete_directories
destroy_server config database nodes s =
    let (nodes', joined) = delete_nodes (reverse nodes) in
    let (endpoints', ended) = delete_endpoints (reverse s.endpoints) in
    let (directories', dropped) = delete_directories (reverse s.static_endpoints) in
    elim (delete_sessions (reverse s.sessions)) [
      | none ↦ none
      | some (sessions', freed) ↦ some (
        record s { endpoints = endpoints'; sessions = sessions'; static_endpoints = directories' },
        nodes',
        delete_if config config_deleted
            ++ (joined ++ (ended ++ (freed ++ (dropped ++ delete_if database database_deleted)))),
      )
    ]

abbrev pub IsDestroyed : Session → Type 0
IsDestroyed ses = (freed : List ℕ) × (destroy ses ≡ some freed)

delete_endpoints-all : (eps : List Endpoint) → delete_endpoints eps ≡ ([], map endpoint_deleted eps)
unfolding delete_endpoints
delete_endpoints-all [] = refl
delete_endpoints-all (ep ∷ eps) =
    ap (λ (r : List Endpoint × List Done). (r.0, endpoint_deleted ep ∷ r.1))
      (delete_endpoints-all eps)

delete_directories-all :
    (ds : List StaticEndpoint) → delete_directories ds ≡ ([], map directory_deleted ds)
unfolding delete_directories
delete_directories-all [] = refl
delete_directories-all (d ∷ ds) =
    ap (λ (r : List StaticEndpoint × List Done). (r.0, directory_deleted d ∷ r.1))
      (delete_directories-all ds)

-- The joins and deletions of nodes.
abbrev pub nodes_done : List ℕ → List Done
nodes_done [] = []
nodes_done (n ∷ nodes) = node_joined n ∷ node_deleted n ∷ nodes_done nodes

delete_nodes-all : (nodes : List ℕ) → delete_nodes nodes ≡ ([], nodes_done nodes)
unfolding delete_nodes
delete_nodes-all [] = refl
delete_nodes-all (n ∷ nodes) =
    ap (λ (r : List ℕ × List Done). (r.0, node_joined n ∷ node_deleted n ∷ r.1))
      (delete_nodes-all nodes)

-- Each of the sessions was deleted, and freed these objects.
pub data Frees : List Session → List Done → Type 0 where
  nothing : Frees [] []
  frees :
      {ses : Session} {sessions : List Session} {freed : List ℕ} {done : List Done}
      → destroy ses ≡ some freed
      → Frees sessions done
      → Frees (ses ∷ sessions) (session_deleted freed ∷ done)

delete_sessions-All :
    (sessions : List Session)
    → All IsDestroyed sessions
    → (done : List Done) × (delete_sessions sessions ≡ some ([], done)) × Frees sessions done
unfolding delete_sessions
delete_sessions-All [] h = ([], refl, nothing)
delete_sessions-All (ses ∷ sessions) h =
    let (freed, e) = h.0 in
    let (done, e', f) = delete_sessions-All sessions h.1 in
    (session_deleted freed ∷ done, rw (e, delete_sessions) (rw e' refl), frees e f)

reverse-All :
    (sessions : List Session) → All IsDestroyed sessions → All IsDestroyed (reverse sessions)
reverse-All [] h = tt
reverse-All (ses ∷ sessions) h =
    rw (reverse-cons ses sessions)
      (All-append IsDestroyed (reverse sessions) (ses ∷ []) (reverse-All sessions h.1) (h.0, tt))

-- The server with nothing left in its vectors.
abbrev pub emptied : Server → Server
emptied s = record s { endpoints = []; sessions = []; static_endpoints = [] }

pub record Destroyed (config database : Bool) (nodes : List ℕ) (s : Server)
    (result : Option (Server × List ℕ × List Done)) : Type 0 where
  pub freed : List Done
  pub of : Frees (reverse s.sessions) freed
  pub is :
      result
      ≡ some (
        emptied s,
        [],
        delete_if config config_deleted
            ++ (nodes_done (reverse nodes)
                ++ (map endpoint_deleted (reverse s.endpoints)
                    ++ (freed
                        ++ (map directory_deleted (reverse s.static_endpoints)
                            ++ delete_if database database_deleted)))),
      )

pub destroy_server-All :
    (config database : Bool) (nodes : List ℕ) (s : Server)
    → All IsDestroyed s.sessions
    → Destroyed config database nodes s (destroy_server config database nodes s)
unfolding destroy_server
destroy_server-All config database nodes s h =
    let (freed, e, f) = delete_sessions-All (reverse s.sessions) (reverse-All s.sessions h) in
    record {
      freed = freed;
      of = f;
      is =
          rw (e, destroy_server)
            (rw
              (
                delete_nodes-all (reverse nodes),
                delete_endpoints-all (reverse s.endpoints),
                delete_directories-all (reverse s.static_endpoints),
              )
              refl);
    }
