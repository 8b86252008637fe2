-- ===== src/Sample.antt =====
-- src/sample-server/main.cpp: the endpoints of the example program and what its `main` registers. The
-- interrupt's callback and the database of `USE_MYSQL` are left out.
pub mod Visits
pub mod Answers
pub mod Ends
use solusek.Base.{
  ℕ, zero, suc, Bool, true, false, [], ◌∷◌, ◌++◌, Option, none, some, if◌then◌else◌, Bytes, codes,
  pos,
}
use solusek.Model.{Cookie, new_cookie, Request, get_cookie, Response, new_response, new_endpoint}
use solusek.Session.{Session, get_string_value, set_string_value}
use solusek.Server.{
  Server, new_server, register_endpoint, register_static_index, add_static_directory, start_session,
  get_session,
}
use solusek.Server.Start.{Settings, new_settings, set_listen_port, set_thread_limit}

-- `MResponse(200, body, sid)`
abbrev pub ok_response : Bytes → Bytes → Response
ok_response body sid = record new_response { code = pos 200; body = body; sid = sid }

abbrev pub test_cookie : Cookie
test_cookie = record (new_cookie (codes "test") (codes "value")) { path = codes "/" }

unfoldable pub set_cookie_endpoint : Server → Request → Server × Response
set_cookie_endpoint server request =
    (server, record new_response { cookies = test_cookie ∷ []; body = codes "Cookie set!" })

abbrev pub cookie_body : Cookie → Bytes
cookie_body c = if c.is_none then codes "Cookie not found." else codes "Cookie content: " ++ c.value

unfoldable pub get_cookie_endpoint : Server → Request → Server × Response
unfolding get_cookie
get_cookie_endpoint server request =
    (server, record new_response { body = cookie_body (get_cookie request (codes "test")) })

abbrev pub set_variables : Session → Session
set_variables ses =
    set_string_value (set_string_value ses (codes "var1") (codes "val1")) (codes "var2")
      (codes "val2")

-- At the time `now`. The server's list holds the session that the two calls change.
unfoldable pub set_session_endpoint : ℕ → Server → Request → Server × Response
unfolding start_session
set_session_endpoint now server request =
    let (server', ses) = start_session server now in
    (
      record server' { sessions = server.sessions ++ set_variables ses ∷ [] },
      ok_response (codes "Session set.") ses.id,
    )

abbrev pub session_body : Session → Bytes
session_body ses =
    codes "Session found!\n\n"
    ++ (codes "var1 = "
        ++ (get_string_value ses (codes "var1")
            ++ (codes "\n"
                ++ (codes "var2 = " ++ (get_string_value ses (codes "var2") ++ codes "\n")))))

abbrev pub session_response : Bytes → Option Session → Response
session_response sid none = ok_response (codes "NO session found. Looking for ID: " ++ sid) []
session_response sid (some ses) = ok_response (session_body ses) []

unfoldable pub get_session_endpoint : Server → Request → Server × Response
unfolding get_session
get_session_endpoint server request =
    (server, session_response request.sid (get_session server request.sid))

-- The functions by their number; `main` registers no other.
unfoldable pub call_endpoint : ℕ → ℕ → Server → Request → Server × Response
unfolding set_cookie_endpoint get_cookie_endpoint set_session_endpoint get_session_endpoint
call_endpoint now zero server request = set_cookie_endpoint server request
call_endpoint now (suc zero) server request = get_cookie_endpoint server request
call_endpoint now (suc (suc zero)) server request = set_session_endpoint now server request
call_endpoint now (suc (suc (suc zero))) server request = get_session_endpoint server request
call_endpoint now _ server request = (server, new_response)

-- `main` up to `run`: what it registers.
unfoldable pub sample_server : Server
unfolding new_server add_static_directory register_static_index register_endpoint
sample_server =
    let get = codes "GET" in
    let s1 =
      add_static_directory new_server (codes "../static/solusek/") (some (codes "solusek.com")) in
    let s2 = add_static_directory s1 (codes "../static/") none in
    let s3 = register_static_index s2 (codes "index.html") in
    let s4 = register_endpoint s3 (new_endpoint (codes "/api/cookie/set") 0 get) in
    let s5 = register_endpoint s4 (new_endpoint (codes "/api/cookie/get") 1 get) in
    let s6 = register_endpoint s5 (new_endpoint (codes "/api/session/set") 2 get) in
    register_endpoint s6 (new_endpoint (codes "/api/session/get") 3 get)

-- And what it sets.
unfoldable pub sample_settings : Settings
unfolding set_listen_port set_thread_limit
sample_settings = set_thread_limit 50 (set_listen_port (pos 8080) new_settings)
