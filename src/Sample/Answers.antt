-- ===== src/Sample/Answers.antt =====
-- What the example program answers on each of its paths.
use solusek.Base.{
  ℕ, ◌<◌, List, [], ◌∷◌, ◌++◌, ◌≡◌, ◌≢◌, refl, sym, ap, ◌∙◌, Option, none, some, Bytes, codes, All,
  length, u32_mod, str_eq, if◌then◌else◌, Bool-cases, inl, inr, append-nil, append_assoc, some_inj,
}
use solusek.Model.{VarVal, Cookie, Request, new_endpoint, new_cookie, find_cookie, new_response}
use solusek.Socket.{Input, Output, stream}
use solusek.Files.{Log}
use solusek.Server.{Server, get_endpoint, find_endpoint}
use solusek.Node.Header.Parse.{Head, IsHead, head_text, field_value}
use solusek.Node.Cookies.{Jar}
use solusek.Node.Cookies.Parse.{cookie_text, IsCookie, fill_jar, with_cookie, parse_cookies-text}
use solusek.Node.Run.Gets.{IsSentWith}
use solusek.Node.Run.{Outside, Ran, read_cookies, respond, run}
use solusek.Node.Run.Answer.{run-Called, request_meant}
use solusek.Sample.{sample_server, call_endpoint, cookie_body}

-- The program's endpoints, called at the time `now`.
abbrev pub RunsSample : ℕ → Outside → Server → Type 0
RunsSample now w s = (w.call ≡ call_endpoint now) × (s.endpoints ≡ sample_server.endpoints)

-- A GET request for a path, all of which arrives.
abbrev pub get_head : Bytes → Option Bytes → Bytes → List VarVal → Head
get_head path query version fields = record {
  method = codes "GET";
  path = path;
  query = query;
  version = version;
  fields = fields;
}

pub record Arrives (reads : ℕ) (head : Head) (rest : Bytes) (i : Input) : Type 0 where
  pub well_formed : IsHead head
  pub sent : IsSentWith head rest
  pub is : stream i ≡ head_text head rest
  pub fits : length (stream i) < reads

-- One call of the endpoint of this number.
pub record Calls (w : Outside) (s : Server) (l : Log) (o : Output) (now k : ℕ) (head : Head)
    (rest : Bytes) (result : Option Ran) : Type 0 where
  pub request : Request
  pub jar : Jar
  pub cookies : read_cookies (field_value (codes "Cookie") head.fields) ≡ some jar
  pub same : (request.cookies ≡ jar.cookies) × (request.sid ≡ jar.sid)
  pub is :
      let answer = call_endpoint now k s request in result ≡ some (respond w answer.0 l answer.1 o)

pub run-Calls :
    (reads fuel now k : ℕ) (w : Outside) (s : Server) (l : Log) (i : Input) (o : Output)
    (head : Head) (rest path : Bytes)
    → w.call ≡ call_endpoint now
    → head.path ≢ []
    → get_endpoint s head.path head.method ≡ some (new_endpoint path k (codes "GET"))
    → Arrives reads head rest i
    → Calls w s l o now k head rest (run reads fuel w s l i o)
run-Calls reads fuel now k w s l i o head rest path runs ne found a =
    let ep = new_endpoint path k (codes "GET") in
    let r =
      run-Called reads fuel w s l i o head rest ep a.well_formed ne a.sent a.is a.fits found in
    let q = request_meant head r.jar r.text in
    record {
      request = q;
      jar = r.jar;
      cookies = r.cookies;
      same = (refl, refl);
      is = r.is ∙ ap (λ c. some (respond w (c k s q).0 l (c k s q).1 o)) runs;
    }

abbrev pub no_jar : Jar
no_jar = record { cookies = []; sid = [] }

pub registered :
    (s : Server) (path : Bytes)
    → s.endpoints ≡ sample_server.endpoints
    → get_endpoint s path (codes "GET") ≡ get_endpoint sample_server path (codes "GET")
unfolding get_endpoint
registered s path e = ap (λ es. find_endpoint es path (codes "GET")) e

-- What a request with these cookies gets on a path of the program.
pub calls_with :
    (reads fuel now k : ℕ) (w : Outside) (s : Server) (l : Log) (i : Input) (o : Output)
    (path : Bytes) (query : Option Bytes) (version : Bytes) (fields : List VarVal) (rest : Bytes)
    (cs : List (Bytes × Bytes))
    → RunsSample now w s
    → path ≢ []
    → get_endpoint sample_server path (codes "GET") ≡ some (new_endpoint path k (codes "GET"))
    → Arrives reads (get_head path query version fields) rest i
    → field_value (codes "Cookie") fields ≡ some (cookie_text cs)
    → cs ≢ []
    → All IsCookie cs
    → length (cookie_text cs) < u32_mod
    → (q : Request) × (q.cookies ≡ (fill_jar no_jar cs).cookies)
      × (q.sid ≡ (fill_jar no_jar cs).sid)
      × (run reads fuel w s l i o
          ≡ some (respond w (call_endpoint now k s q).0 l (call_endpoint now k s q).1 o))
unfolding read_cookies
calls_with reads fuel now k w s l i o path query version fields rest cs runs ne there a e
      some_cookie ok small =
    let head = get_head path query version fields in
    let c =
      run-Calls reads fuel now k w s l i o head rest path runs.0 ne
        (registered s path runs.1 ∙ there) a in
    let read : read_cookies (some (cookie_text cs)) ≡ some (fill_jar no_jar cs) =
      parse_cookies-text cs some_cookie ok small in
    let same : fill_jar no_jar cs ≡ c.jar =
      some_inj (sym read ∙ ap read_cookies (sym e) ∙ c.cookies) in
    (
      c.request,
      c.same.0 ∙ ap (λ (j : Jar). j.cookies) (sym same),
      c.same.1 ∙ ap (λ (j : Jar). j.sid) (sym same),
      c.is,
    )

-- The value of the first cookie of a name.
abbrev pub cookie_value : List (Bytes × Bytes) → Bytes → Option Bytes
cookie_value [] name = none
cookie_value ((n, v) ∷ cs) name = if str_eq n name then some v else cookie_value cs name

abbrev pub cookie_said : Option Bytes → Bytes
cookie_said none = codes "Cookie not found."
cookie_said (some v) = codes "Cookie content: " ++ v

abbrev sent_cookies : List (Bytes × Bytes) → List Cookie
sent_cookies [] = []
sent_cookies ((n, v) ∷ cs) = new_cookie n v ∷ sent_cookies cs

fill_jar-cookies :
    (j : Jar) (cs : List (Bytes × Bytes)) → (fill_jar j cs).cookies ≡ j.cookies ++ sent_cookies cs
fill_jar-cookies j [] = sym (append-nil j.cookies)
fill_jar-cookies j ((n, v) ∷ cs) =
    fill_jar-cookies (with_cookie j n v) cs
    ∙ append_assoc j.cookies (new_cookie n v ∷ []) (sent_cookies cs)

cookie_body-sent :
    (cs : List (Bytes × Bytes)) (name : Bytes)
    → cookie_body (find_cookie name (sent_cookies cs)) ≡ cookie_said (cookie_value cs name)
unfolding find_cookie
cookie_body-sent [] name = refl
cookie_body-sent ((n, v) ∷ cs) name = elim (Bool-cases (str_eq n name)) [
  | inl e ↦ rw e refl
  | inr e ↦ rw e (cookie_body-sent cs name)
]

-- On a server with the program's endpoints, a GET request for "/api/cookie/get" that arrives whole
-- and carries well-formed cookies is answered, with more fuel than bytes, with the value of the
-- first cookie named "test", or with "Cookie not found." if there is none, and the server stays as
-- it was.
pub get_cookie_endpoint-Answers :
    (reads fuel now : ℕ) (w : Outside) (s : Server) (l : Log) (i : Input) (o : Output)
    (query : Option Bytes) (version : Bytes) (fields : List VarVal) (rest : Bytes)
    (cs : List (Bytes × Bytes))
    → RunsSample now w s
    → Arrives reads (get_head (codes "/api/cookie/get") query version fields) rest i
    → field_value (codes "Cookie") fields ≡ some (cookie_text cs)
    → cs ≢ []
    → All IsCookie cs
    → length (cookie_text cs) < u32_mod
    → run reads fuel w s l i o
      ≡ some (
          respond w s l
            (record new_response { body = cookie_said (cookie_value cs (codes "test")) })
            o)
unfolding sample_server get_endpoint call_endpoint
get_cookie_endpoint-Answers reads fuel now w s l i o query version fields rest cs runs a e ne ok
      small =
    let (q, cookies, sid, is) =
      calls_with reads fuel now 1 w s l i o (codes "/api/cookie/get") query version fields rest cs
        runs (λ k. cc) refl a e ne ok small in
    is
    ∙ ap (λ b. some (respond w s l (record new_response { body = b }) o))
        (ap (λ c. cookie_body (find_cookie (codes "test") c)) (cookies ∙ fill_jar-cookies no_jar cs)
          ∙ cookie_body-sent cs (codes "test"))
