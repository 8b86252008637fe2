-- ===== src/Node/Run/File.antt =====
-- A request for a static file.
use solusek.Base.{
  ℕ, suc, ◌<◌, [], ◌∷◌, ◌++◌, ◌≡◌, ◌≢◌, sym, ap, ◌∙◌, arith, none, some, Bytes, codes, c_str,
  length, pos,
}
use solusek.Model.{Response, new_response}
use solusek.Text.{strtolower}
use solusek.Socket.{Input, Output, stream}
use solusek.Files.{Log}
use solusek.Server.{Server, get_endpoint, get_mime_type}
use solusek.Server.Static.{choose_directory, get_static_endpoint}
use solusek.Server.Static.Found.{file_path, IsFilePath, served_type, get_static_endpoint-file}
use solusek.Node.Header.Parse.{
  Head, IsHead, head_text, field_value, pushed, request_line, get_header-pushed,
}
use solusek.Node.Run.Gets.{IsSentWith, run-Gets, c_str-path}
use solusek.Node.Run.{Outside, Received, value_or_empty, respond, run_static, run_found, run}

-- The host that the files are looked up for.
abbrev pub host_asked : Head → Bytes
host_asked head = strtolower (c_str (value_or_empty (field_value (codes "Host") head.fields)))

-- The response with a file.
abbrev pub file_response : Server → Bytes → Bytes → Response
file_response s ext contents = record new_response {
  code = pos 200;
  body = contents;
  content_type = served_type (get_mime_type s (strtolower ext));
}

path-ne-nil : (front stem ext : Bytes) → file_path front stem ext ≢ []
path-ne-nil [] stem ext e = cc
path-ne-nil (c ∷ front) stem ext e = cc

-- A request of a well-formed head, with the body it announces, for a file that is there, is answered with
-- code 200, the contents of the file and the content type of its extension, however its bytes arrive
-- and with more fuel than bytes: if no endpoint is registered for its path and method, the file lies
-- below the first static directory for its host and has less than 2^31 bytes, its path has no "..", no
-- question mark and no colon in it, less than 2^32 - 1 bytes and a dot behind its last slash, and a
-- length that is announced is at most 2^32 - 1024, for bytes with no NUL. The server stays as it was.
pub run-file :
    (reads fuel : ℕ) (w : Outside) (s : Server) (l : Log) (i : Input) (o : Output) (head : Head)
    (rest front stem ext dir contents : Bytes)
    → IsHead head
    → head.path ≡ file_path front stem ext
    → IsFilePath front stem ext
    → IsSentWith head rest
    → stream i ≡ head_text head rest
    → length (stream i) < reads
    → get_endpoint s head.path head.method ≡ none
    → choose_directory s.static_endpoints (host_asked head) ≡ dir
    → dir ≢ []
    → w.disk.open_file (dir ++ b'/' ∷ file_path front stem ext) ≡ some contents
    → length contents < 2147483648
    → (l' : Log) × (run reads (suc fuel) w s l i o
        ≡ some (respond w s l' (file_response s ext contents) o))
unfolding run_found run_static
run-file reads fuel w s l i o head rest front stem ext dir contents h is path sent e fits found at
      ne there small =
    let got =
      run-Gets reads (suc fuel) w s l i o head rest h (λ k. path-ne-nil front stem ext (sym is ∙ k))
        sent e fits in
    let q : Received = record {
      headers = pushed head;
      line = request_line head;
      text = got.text;
    } in
    let m = c_str head.method in
    let asked = c_str (value_or_empty (field_value (codes "Host") head.fields)) in
    let same = get_header-pushed head (codes "Host") h (ground arith) (ground arith) in
    let (l', answered) =
      get_static_endpoint-file fuel s w.disk w.stray m (some asked) front stem ext dir contents l
        path at ne there (omega arith) in
    (
      l',
      got.is
          ∙ ap (λ f. run_found (suc fuel) w s l q o f) found
          ∙ ap
              (λ v. run_static w s o (
                get_static_endpoint (suc fuel) s w.disk w.stray m (some (c_str (value_or_empty v)))
                  (c_str head.path) l))
              same
          ∙ ap
              (λ p.
                run_static w s o
                  (get_static_endpoint (suc fuel) s w.disk w.stray m (some asked) p l))
              (c_str-path head h ∙ is)
          ∙ ap (λ r. run_static w s o r) answered,
    )
