-- ===== src/Tests/Samples.antt =====
-- The example program.
use Prim.Native.String.{String}
use solusek.Base.{ℕ, List, [], ◌∷◌, ◌≡◌, refl, arith, none, some, All, Bytes, codes}
use solusek.Model.{VarVal, new_response}
use solusek.Socket.{healthy, Input, Output}
use solusek.Files.{Log}
use solusek.Text.{strtolower, trim}
use solusek.Decimal.{print_nat}
use solusek.Server.{Server, start_session, get_session}
use solusek.Node.Header.Parse.{Head, head_text, field_value}
use solusek.Session.{new_session}
use solusek.Node.Cookies.Parse.{cookie_text, IsCookie}
use solusek.Node.Run.{Outside, respond, run}
use solusek.Sample.{sample_server, call_endpoint, ok_response}
use solusek.Sample.Answers.{get_head, Arrives, get_cookie_endpoint-Answers}
use solusek.Sample.Visits.{Visits, here, more, after_set, set-get_session}

abbrev world : ℕ → Outside
world now = record {
  call = call_endpoint now;
  asctime = codes "now\n";
  disk = record { open_file = λ name. none; mod_time = λ name. [] };
  stray = 0;
}

abbrev fresh : Log
fresh = record { opened = []; handles = 0 }

abbrev line : Output
line = record { sends = healthy 100; sent = [] }

abbrev asks : String → List VarVal → Head
asks path fields = get_head (codes path) none (codes "HTTP/1.1") fields

abbrev cookies : List (Bytes × Bytes)
cookies = (codes "test", codes "value") ∷ (codes "SolusekSID", codes "16000000000") ∷ []

abbrev cookie_fields : List VarVal
cookie_fields =
    record { var = codes "Cookie"; val = codes " test=value; SolusekSID=16000000000" } ∷ []

abbrev in_one_piece : Head → Input
in_one_piece head = record { pending = []; arrivals = head_text head [] ∷ [] }

set_session :
    Arrives 100 (asks "/api/session/set" []) [] (in_one_piece (asks "/api/session/set" []))
set_session = record {
  well_formed = record {
    method_word = ground arith;
    path_word = ground arith;
    path_end = ground arith;
    query_word = ground arith;
    no_colon = ground arith;
    text = ground arith;
    names = ground arith;
    lines = ground arith;
  };
  sent = λ v e. cc;
  is = refl;
  fits = ground arith;
}

get_session_sent :
    Arrives 200
      (asks "/api/session/get" cookie_fields)
      []
      (in_one_piece (asks "/api/session/get" cookie_fields))
unfolding strtolower
get_session_sent = record {
  well_formed = record {
    method_word = ground arith;
    path_word = ground arith;
    path_end = ground arith;
    query_word = ground arith;
    no_colon = ground arith;
    text = ground arith;
    names = ground arith;
    lines = ground arith;
  };
  sent = λ v e. cc;
  is = refl;
  fits = ground arith;
}

get_cookie :
    Arrives 200
      (asks "/api/cookie/get" cookie_fields)
      []
      (in_one_piece (asks "/api/cookie/get" cookie_fields))
unfolding strtolower
get_cookie = record {
  well_formed = record {
    method_word = ground arith;
    path_word = ground arith;
    path_end = ground arith;
    query_word = ground arith;
    no_colon = ground arith;
    text = ground arith;
    names = ground arith;
    lines = ground arith;
  };
  sent = λ v e. cc;
  is = refl;
  fits = ground arith;
}

cookies_found : field_value (codes "Cookie") cookie_fields ≡ some (cookie_text cookies)
unfolding strtolower trim
cookies_found = refl

cookies-IsCookie : All IsCookie cookies
cookies-IsCookie = ground arith

get_cookie_endpoint-Answers_example :
    run 200 9
      (world 7)
      sample_server
      fresh
      (in_one_piece (asks "/api/cookie/get" cookie_fields))
      line
    ≡ some (
        respond
          (world 7)
          sample_server
          fresh
          (record new_response { body = codes "Cookie content: value" })
          line)
get_cookie_endpoint-Answers_example =
    get_cookie_endpoint-Answers 200 9 7 (world 7) sample_server fresh
      (in_one_piece (asks "/api/cookie/get" cookie_fields)) line none (codes "HTTP/1.1")
      cookie_fields [] cookies (refl, refl) get_cookie cookies_found (λ k. cc) cookies-IsCookie
      (ground arith)

no_session : get_session sample_server (codes "16000000000") ≡ none
unfolding sample_server get_session
no_session = refl

abbrev set_server : Server
set_server = after_set 1600000000 sample_server

set_server-endpoints : set_server.endpoints ≡ sample_server.endpoints
set_server-endpoints = refl

-- One connection in between.
visits : Visits set_server set_server
visits =
    more 200 9 7 (world 7) fresh (in_one_piece (asks "/api/cookie/get" cookie_fields)) line _ refl
      here
      (get_cookie_endpoint-Answers 200 9 7 (world 7) set_server fresh
        (in_one_piece (asks "/api/cookie/get" cookie_fields)) line none (codes "HTTP/1.1")
        cookie_fields [] cookies (refl, set_server-endpoints) get_cookie cookies_found (λ k. cc)
        cookies-IsCookie (ground arith))

id_given : (start_session sample_server 1600000000).1.id ≡ codes "16000000000"
unfolding start_session new_session print_nat sample_server
id_given = refl

set-get_session_example :
    (run 100 9
        (world 1600000000)
        sample_server
        fresh
        (in_one_piece (asks "/api/session/set" []))
        line
      ≡ some (
          respond
            (world 1600000000)
            set_server
            fresh
            (ok_response (codes "Session set.") (codes "16000000000"))
            line))
    × (run 200 9
          (world 8)
          set_server
          fresh
          (in_one_piece (asks "/api/session/get" cookie_fields))
          line
        ≡ some (
            respond
              (world 8)
              set_server
              fresh
              (ok_response (codes "Session found!\n\nvar1 = val1\nvar2 = val2\n") [])
              line))
set-get_session_example =
    set-get_session 100 9 1600000000 200 9 8 (world 1600000000) (world 8) sample_server set_server
      fresh fresh (in_one_piece (asks "/api/session/set" []))
      (in_one_piece (asks "/api/session/get" cookie_fields)) line line none none (codes "HTTP/1.1")
      (codes "HTTP/1.1") [] cookie_fields [] [] (codes "16000000000") cookies (refl, refl) refl
      no_session id_given set_session visits get_session_sent cookies_found (λ k. cc)
      cookies-IsCookie (ground arith) refl
