-- ===== src/Tests/StaticFiles.antt =====
-- A static file of the example program.
use solusek.Base.{[], ◌∷◌, ◌≡◌, refl, arith, none, some, Bytes, codes, str_eq, if◌then◌else◌}
use solusek.Text.{strtolower, trim}
use solusek.Socket.{healthy, Input}
use solusek.Files.{Log}
use solusek.Server.{get_endpoint, get_mime_type}
use solusek.Server.Static.{choose_directory}
use solusek.Server.Static.Found.{IsFilePath}
use solusek.Node.Header.Parse.{Head, IsHead, head_text}
use solusek.Node.Run.{Outside, respond, run}
use solusek.Node.Run.File.{file_response, host_asked, run-file}
use solusek.Sample.{sample_server, call_endpoint}
use solusek.Sample.Answers.{get_head}

abbrev style_name : Bytes
style_name = codes "../static/solusek///css/a.b.CSS"

abbrev world : Outside
world = record {
  call = call_endpoint 7;
  asctime = codes "now\n";
  disk = record {
    open_file = λ name. if str_eq name style_name then some (codes "p {}") else none;
    mod_time = λ name. [];
  };
  stray = 0;
}

abbrev style_request : Head
style_request =
    get_head (codes "/css/a.b.CSS") (some (codes "v=2")) (codes "HTTP/1.1")
      (record { var = codes "Host"; val = codes " WWW.solusek.com" } ∷ [])

abbrev style_in : Input
style_in = record { pending = []; arrivals = head_text style_request [] ∷ [] }

style_request-IsHead : IsHead style_request
style_request-IsHead = record {
  method_word = ground arith;
  path_word = ground arith;
  path_end = ground arith;
  query_word = ground arith;
  no_colon = ground arith;
  text = ground arith;
  names = ground arith;
  lines = ground arith;
}

style_path : IsFilePath (codes "/css") (codes "a.b") (codes "CSS")
style_path = record {
  no_dots = refl;
  no_query = ground arith;
  name = ground arith;
  last_dot = ground arith;
  short = ground arith;
}

no_endpoint : get_endpoint sample_server style_request.path style_request.method ≡ none
unfolding get_endpoint sample_server
no_endpoint = refl

directory :
    choose_directory sample_server.static_endpoints (host_asked style_request)
    ≡ codes "../static/solusek/"
unfolding choose_directory sample_server strtolower trim
directory = refl

run-file_example :
    (l' : Log) × (run 200 2 world sample_server
        (record { opened = []; handles = 0 })
        style_in
        (record { sends = healthy 100; sent = [] })
      ≡ some (
          respond world sample_server l'
            (file_response sample_server (codes "CSS") (codes "p {}"))
            (record { sends = healthy 100; sent = [] })))
unfolding strtolower
run-file_example =
    run-file 200 1 world sample_server (record { opened = []; handles = 0 }) style_in
      (record { sends = healthy 100; sent = [] }) style_request [] (codes "/css") (codes "a.b")
      (codes "CSS") (codes "../static/solusek/") (codes "p {}") style_request-IsHead refl style_path
      (λ v e. cc) refl (ground arith) no_endpoint directory (λ k. cc) refl (ground arith)

-- The type of the extension.
style_type :
    (file_response sample_server (codes "CSS") (codes "p {}")).content_type ≡ codes "text/css"
unfolding get_mime_type sample_server strtolower
style_type = refl
