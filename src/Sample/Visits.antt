-- ===== src/Sample/Visits.antt =====
-- Sessions over several connections of the example program.
use solusek.Base.{
  ℕ, zero, suc, ◌<◌, List, [], ◌∷◌, ◌++◌, ◌≡◌, ◌≢◌, refl, sym, ap, ◌∙◌, subst, Option, none, some,
  Bytes, codes, All, length, u32_mod, str_eq, str_eq_refl, if◌then◌else◌,
}
use solusek.Model.{VarVal, Request}
use solusek.Socket.{Input, Output}
use solusek.Files.{Log}
use solusek.Session.{Session, new_session, set_string_value, get, find_item}
use solusek.Session.Refines.{new_session-set_all}
use solusek.Server.{Server, get_session, get_endpoint, start_session}
use solusek.Server.Registry.{or_else, find_session-append}
use solusek.Node.Header.Parse.{field_value}
use solusek.Node.Cookies.Parse.{cookie_text, IsCookie, fill_jar}
use solusek.Node.Run.{Outside, Ran, respond, run}
use solusek.Node.Run.Changes.{Changes, same, called, run-Changes}
use solusek.Sample.{
  sample_server, call_endpoint, session_response, set_variables, ok_response, session_body,
}
use solusek.Sample.Answers.{
  RunsSample, get_head, Arrives, run-Calls, calls_with, no_jar, registered,
}

-- Connections that are served one after another, each at its own time.
pub data Visits (s : Server) : Server → Type 0 where
  here : Visits s s
  more :
      {t : Server} (reads fuel now : ℕ) (w : Outside) (l : Log) (i : Input) (o : Output) (r : Ran)
      → w.call ≡ call_endpoint now
      → Visits s t
      → run reads fuel w t l i o ≡ some r
      → Visits s r.server

-- The endpoints are the program's, and the id finds this session.
pub record Holds (id : Bytes) (ses : Session) (s : Server) : Type 0 where
  pub endpoints : s.endpoints ≡ sample_server.endpoints
  pub found : get_session s id ≡ some ses

call_endpoint-Holds :
    (now k : ℕ) (s : Server) (q : Request) (id : Bytes) (ses : Session)
    → Holds id ses s
    → Holds id ses (call_endpoint now k s q).0
unfolding call_endpoint get_session
call_endpoint-Holds now zero s q id ses h = h
call_endpoint-Holds now (suc zero) s q id ses h = h
call_endpoint-Holds now (suc (suc zero)) s q id ses h = record {
  endpoints = h.endpoints;
  found =
      let ses' = set_variables (new_session now s.incremental).0 in
      find_session-append s.sessions ses' id
      ∙ ap (λ a. or_else a (if str_eq ses'.id id then some ses' else none)) h.found;
}
call_endpoint-Holds now (suc (suc (suc zero))) s q id ses h = h
call_endpoint-Holds now (suc (suc (suc (suc k)))) s q id ses h = h

Changes-Holds :
    (now : ℕ) (w : Outside) (s t : Server) (id : Bytes) (ses : Session)
    → w.call ≡ call_endpoint now
    → Changes w s t
    → Holds id ses s
    → Holds id ses t
Changes-Holds now w s _ id ses e same h = h
Changes-Holds now w s _ id ses e (called f q) h =
    subst (λ c. Holds id ses (c f s q).0) (sym e) (call_endpoint-Holds now f s q id ses h)

Visits-Holds :
    (s t : Server) (id : Bytes) (ses : Session) → Visits s t → Holds id ses s → Holds id ses t
Visits-Holds s _ id ses here h = h
Visits-Holds s _ id ses (more {t} reads fuel now w l i o r e before ran) h =
    Changes-Holds now w t r.server id ses e (run-Changes reads fuel w t l i o r ran)
      (Visits-Holds s t id ses before h)

-- The session that a request for "/api/session/set" starts, and the server with it.
abbrev pub started : ℕ → Server → Session
started now s = set_variables (start_session s now).1

abbrev pub after_set : ℕ → Server → Server
after_set now s = record s {
  sessions = s.sessions ++ started now s ∷ [];
  incremental = (start_session s now).0.incremental;
}

started-id : (now : ℕ) (s : Server) → (started now s).id ≡ (start_session s now).1.id
unfolding set_string_value get start_session new_session find_item
started-id now s = refl

session_body-started :
    (now : ℕ) (s : Server)
    → session_body (started now s) ≡ codes "Session found!\n\nvar1 = val1\nvar2 = val2\n"
unfolding start_session
session_body-started now s =
    let calls = (codes "var1", codes "val1") ∷ (codes "var2", codes "val2") ∷ [] in
    let r = new_session-set_all now s.incremental calls in
    ap
      (λ (f : Bytes → Bytes).
        codes "Session found!\n\n"
        ++ (codes "var1 = "
            ++ (f (codes "var1")
                ++ (codes "\n" ++ (codes "var2 = " ++ (f (codes "var2") ++ codes "\n"))))))
      r.reads

after_set-Holds :
    (now : ℕ) (s : Server) (id : Bytes)
    → s.endpoints ≡ sample_server.endpoints
    → get_session s id ≡ none
    → (started now s).id ≡ id
    → Holds id (started now s) (after_set now s)
unfolding get_session
after_set-Holds now s id e fresh is = record {
  endpoints = e;
  found =
      let ses = started now s in
      find_session-append s.sessions ses id
      ∙ ap (λ a. or_else a (if str_eq ses.id id then some ses else none)) fresh
      ∙ ap (λ b. if b then some ses else none) (ap (λ x. str_eq x id) is ∙ str_eq_refl id);
}

-- On a server with the program's endpoints, a GET request for "/api/session/get" that arrives whole
-- and carries well-formed cookies is answered, with more fuel than bytes, from the session that has
-- the id of the last cookie named "SolusekSID", or with the text that there is no session of that
-- id, and the server stays as it was.
pub get_session_endpoint-Answers :
    (reads fuel now : ℕ) (w : Outside) (s : Server) (l : Log) (i : Input) (o : Output)
    (query : Option Bytes) (version : Bytes) (fields : List VarVal) (rest : Bytes)
    (cs : List (Bytes × Bytes))
    → RunsSample now w s
    → Arrives reads (get_head (codes "/api/session/get") query version fields) rest i
    → field_value (codes "Cookie") fields ≡ some (cookie_text cs)
    → cs ≢ []
    → All IsCookie cs
    → length (cookie_text cs) < u32_mod
    → run reads fuel w s l i o
      ≡ some (
          let sid = (fill_jar no_jar cs).sid in
          respond w s l (session_response sid (get_session s sid)) o)
unfolding sample_server get_endpoint call_endpoint
get_session_endpoint-Answers reads fuel now w s l i o query version fields rest cs runs a e ne ok
      small =
    let (q, cookies, sid, is) =
      calls_with reads fuel now 3 w s l i o (codes "/api/session/get") query version fields rest cs
        runs (λ k. cc) refl a e ne ok small in
    is ∙ ap (λ x. some (respond w s l (session_response x (get_session s x)) o)) sid

-- On a server with the program's endpoints, a GET request for "/api/session/set" that arrives whole
-- is answered with a new session's id, and after any number of other connections, served one after
-- another, whatever they send, a GET request for "/api/session/get" whose last cookie named
-- "SolusekSID" is that id is answered with the two values that were set: if no session had the id
-- before, both requests arrive whole, the cookies are well-formed and there is more fuel than bytes.
pub set-get_session :
    (reads fuel now reads' fuel' now' : ℕ) (w w' : Outside) (s t : Server) (l l' : Log)
    (i i' : Input) (o o' : Output) (query query' : Option Bytes) (version version' : Bytes)
    (fields fields' : List VarVal) (rest rest' id : Bytes) (cs : List (Bytes × Bytes))
    → RunsSample now w s
    → w'.call ≡ call_endpoint now'
    → get_session s id ≡ none
    → (start_session s now).1.id ≡ id
    → Arrives reads (get_head (codes "/api/session/set") query version fields) rest i
    → Visits (after_set now s) t
    → Arrives reads' (get_head (codes "/api/session/get") query' version' fields') rest' i'
    → field_value (codes "Cookie") fields' ≡ some (cookie_text cs)
    → cs ≢ []
    → All IsCookie cs
    → length (cookie_text cs) < u32_mod
    → (fill_jar no_jar cs).sid ≡ id
    → (run reads fuel w s l i o
        ≡ some (respond w (after_set now s) l (ok_response (codes "Session set.") id) o))
      × (run reads' fuel' w' t l' i' o'
          ≡ some (
              respond w' t l'
                (ok_response (codes "Session found!\n\nvar1 = val1\nvar2 = val2\n") [])
                o'))
unfolding sample_server get_endpoint call_endpoint
set-get_session reads fuel now reads' fuel' now' w w' s t l l' i i' o o' query query' version
      version' fields fields' rest rest' id cs runs runs' fresh id_is a visits a' e ne ok small
      sid =
    let head = get_head (codes "/api/session/set") query version fields in
    let set =
      run-Calls reads fuel now 2 w s l i o head rest (codes "/api/session/set") runs.0 (λ k. cc)
        (registered s (codes "/api/session/set") runs.1) a in
    let holds =
      Visits-Holds (after_set now s) t id (started now s) visits
        (after_set-Holds now s id runs.1 fresh (started-id now s ∙ id_is)) in
    let got =
      get_session_endpoint-Answers reads' fuel' now' w' t l' i' o' query' version' fields' rest' cs
        (runs', holds.endpoints) a' e ne ok small in
    (
      set.is
          ∙ ap (λ x. some (respond w (after_set now s) l (ok_response (codes "Session set.") x) o))
              id_is,
      got
          ∙ ap (λ x. some (respond w' t l' (session_response x (get_session t x)) o')) sid
          ∙ ap (λ r. some (respond w' t l' (session_response id r) o')) holds.found
          ∙ ap (λ b. some (respond w' t l' (ok_response b []) o')) (session_body-started now s),
    )
