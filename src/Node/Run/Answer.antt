-- ===== src/Node/Run/Answer.antt =====
-- What a connection is answered.
use solusek.Base.{
  ℕ, suc, ◌<◌, [], ◌≡◌, ◌≢◌, refl, ap, ◌∙◌, subst, arith, Option, none, some, inl, inr,
  Option-cases, Bytes, codes, c_str, find_str, length, pos,
}
use solusek.Model.{Endpoint, Request, Response, new_response, error_response}
use solusek.Socket.{Input, Output, stream}
use solusek.Files.{Disk, Log}
use solusek.Server.{Server, get_endpoint}
use solusek.Server.Static.{answer, get_static_endpoint}
use solusek.Node.Header.{Loop, thrown, at_start, header_loop, read_header, after_loop}
use solusek.Node.Header.Lines.{header_bytes, header_loop-Agrees, Agrees}
use solusek.Node.Header.Parse.{
  Head, IsHead, head_text, query_text, field_value, pushed, request_line, get_header-pushed,
}
use solusek.Node.Cookies.{Jar}
use solusek.Node.Cookies.Parse.{parse_cookies_total}
use solusek.Node.Run.Gets.{TextOf, IsSentWith, run-Gets, c_str-path}
use solusek.Node.Run.{
  Outside, Ran, Received, value_or_empty, host_value, read_cookies, new_request, respond,
  run_callback, run_missing, run_static, run_found, run_header, run,
}

-- The request that the callback should see.
abbrev pub request_meant : Head → Jar → Bytes → Request
request_meant head jar text = record {
  cookies = jar.cookies;
  body = text;
  host = value_or_empty (field_value (codes "Host") head.fields);
  sid = jar.sid;
  query_string = query_text head.query;
  ssl_client_cn = value_or_empty (field_value (codes "X-SSL-Client-CN") head.fields);
}

-- One call of the callback, and its response written.
pub record Called (w : Outside) (s : Server) (l : Log) (o : Output) (head : Head) (rest : Bytes)
    (ep : Endpoint) (result : Option Ran) : Type 0 where
  pub text : Bytes
  pub jar : Jar
  pub of : TextOf head rest text
  pub cookies : read_cookies (field_value (codes "Cookie") head.fields) ≡ some jar
  pub is :
      let answer = w.call ep.callback s (request_meant head jar text) in
      result ≡ some (respond w answer.0 l answer.1 o)

read_cookies_total : (v : Option Bytes) → (j : Jar) × (read_cookies v ≡ some j)
unfolding read_cookies
read_cookies_total none = (_, refl)
read_cookies_total (some v) = parse_cookies_total v

new_request-pushed :
    (head : Head) (jar : Jar) (text : Bytes)
    → IsHead head
    → new_request (record { headers = pushed head; line = request_line head; text = text }) jar
      ≡ request_meant head jar text
new_request-pushed head jar text h =
    let host = get_header-pushed head (codes "Host") h (ground arith) (ground arith) in
    let cn = get_header-pushed head (codes "X-SSL-Client-CN") h (ground arith) (ground arith) in
    rw (host, cn) refl

-- A request of a well-formed head with a path, for a registered endpoint, is answered by that
-- endpoint, however its bytes arrive and with more fuel than bytes: its callback is called once, with
-- the host, the cookies, the query string and a text, and the callback's response is what is written.
-- No file is opened. Well-formed means that no line has a line end or a NUL in it, no field name a
-- colon, and the request line none at all. If no length is announced the text is empty. Else the
-- length and 1024 are at most 2^32, as many bytes follow the head, and none of them is NUL; the text
-- is then their front up to the end of the first read that reaches the length, which is all of them
-- if no more follow than were announced, and less than 1024 bytes more than the length otherwise.
pub run-Called :
    (reads fuel : ℕ) (w : Outside) (s : Server) (l : Log) (i : Input) (o : Output) (head : Head)
    (rest : Bytes) (ep : Endpoint)
    → IsHead head
    → head.path ≢ []
    → IsSentWith head rest
    → stream i ≡ head_text head rest
    → length (stream i) < reads
    → get_endpoint s head.path head.method ≡ some ep
    → Called w s l o head rest ep (run reads fuel w s l i o)
unfolding run_found run_callback
run-Called reads fuel w s l i o head rest ep h ne sent e fits found =
    let got = run-Gets reads fuel w s l i o head rest h ne sent e fits in
    let (jar, c) = read_cookies_total (field_value (codes "Cookie") head.fields) in
    let q : Received = record {
      headers = pushed head;
      line = request_line head;
      text = got.text;
    } in
    let same = get_header-pushed head (codes "Cookie") h (ground arith) (ground arith) in
    record {
      text = got.text;
      jar = jar;
      of = got.of;
      cookies = c;
      is =
          got.is
          ∙ ap (λ f. run_found fuel w s l q o f) found
          ∙ ap (λ v. run_callback w s l q ep o (read_cookies v)) same
          ∙ ap (λ j. run_callback w s l q ep o j) c
          ∙ ap (λ r. some (respond w (w.call ep.callback s r).0 l (w.call ep.callback s r).1 o))
              (new_request-pushed head jar got.text h);
    }

-- The response to a request that nothing answers.
abbrev pub not_found : Response
not_found = record new_response {
  code = pos 404;
  body = codes "{ \"code\": \"404\", \"message\": \"Endpoint not found.\" }";
}

not_found-error_response : error_response (pos 404) (codes "Endpoint not found.") ≡ some not_found
unfolding error_response
not_found-error_response = refl

static_dots :
    (fuel : ℕ) (s : Server) (d : Disk) (stray : ℕ) (method : Bytes) (host : Option Bytes)
    (path : Bytes) (l : Log)
    → find_str (codes "..") path ≢ none
    → get_static_endpoint (suc fuel) s d stray method host path l ≡ answer none l
unfolding get_static_endpoint
static_dots fuel s d stray method host path l dots =
    elim (Option-cases (find_str (codes "..") path)) [
      | inl e ↦ absurd (dots e)
      | inr (i, e) ↦ rw (e, get_static_endpoint) refl
    ]

-- A request of a well-formed head, with no colon in its request line, whose path holds "..", for no
-- registered endpoint and with the
-- body it announces, is answered with the 404 error, however its bytes arrive and with more fuel
-- than bytes, and no file is opened for it.
pub run_dots :
    (reads fuel : ℕ) (w : Outside) (s : Server) (l : Log) (i : Input) (o : Output) (head : Head)
    (rest : Bytes)
    → IsHead head
    → head.path ≢ []
    → IsSentWith head rest
    → stream i ≡ head_text head rest
    → length (stream i) < reads
    → get_endpoint s head.path head.method ≡ none
    → find_str (codes "..") head.path ≢ none
    → run reads (suc fuel) w s l i o ≡ some (respond w s l not_found o)
unfolding run_found run_static run_missing
run_dots reads fuel w s l i o head rest h ne sent e fits found dots =
    let got = run-Gets reads (suc fuel) w s l i o head rest h ne sent e fits in
    let q : Received = record {
      headers = pushed head;
      line = request_line head;
      text = got.text;
    } in
    let m = c_str head.method in
    let host = some (c_str (host_value q)) in
    got.is
    ∙ ap (λ f. run_found (suc fuel) w s l q o f) found
    ∙ ap (λ p. run_static w s o (get_static_endpoint (suc fuel) s w.disk w.stray m host p l))
        (c_str-path head h)
    ∙ ap (λ r. run_static w s o r) (static_dots fuel s w.disk w.stray m host head.path l dots)
    ∙ ap (λ r. run_missing w s l o r) not_found-error_response

-- A connection whose bytes end before the empty line of a head gets no byte in answer, and the
-- server and the log stay as they were, with more fuel than bytes.
pub run_cut_off :
    (reads fuel : ℕ) (w : Outside) (s : Server) (l : Log) (i : Input) (o : Output)
    → header_bytes at_start (stream i) ≡ none
    → length (stream i) < reads
    → run reads fuel w s l i o ≡ some (record { server = s; written = o; log = l })
unfolding run run_header read_header
run_cut_off reads fuel w s l i o e fits =
    let thrown_it : header_loop reads at_start i ≡ thrown =
      subst (λ a. Agrees a (header_loop reads at_start i)) e
        (header_loop-Agrees reads at_start i (stream i) refl fits) in
    ap (λ (k : Loop). run_header reads fuel w s l o (after_loop k)) thrown_it
