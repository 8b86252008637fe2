-- ===== src/Node/Run/Changes.antt =====
-- What a run does to the server.
use solusek.Base.{
  ℕ, ◌≡◌, subst, Option, none, some, inl, inr, Bool-cases, codes, c_str, is_empty, pos, List,
}
use solusek.Model.{VarVal, Endpoint, Request, Response, error_response}
use solusek.Socket.{Input, Output}
use solusek.Files.{Log}
use solusek.Server.{Server, get_endpoint}
use solusek.Server.Static.{Search, no_fuel, answer, get_static_endpoint}
use solusek.Node.Header.{
  RequestLine, HeaderRead, closed, malformed, no_fuel, header, read_header, get_header,
}
use solusek.Node.Body.{BodyRead, closed, no_fuel, body, read_body}
use solusek.Node.Cookies.{Jar}
use solusek.Node.Run.{
  Outside, Ran, Received, host_value, read_cookies, new_request, run_callback, run_missing,
  run_static, run_found, run_request, run_body, run_header, run,
}

-- The server as it was, or as one call of a callback left it.
pub data Changes (w : Outside) (s : Server) : Server → Type 0 where
  same : Changes w s s
  called : (f : ℕ) (r : Request) → Changes w s (w.call f s r).0

abbrev RanChanges : Outside → Server → Option Ran → Type 0
RanChanges w s none = Unit
RanChanges w s (some r) = Changes w s r.server

run_missing-Changes :
    (w : Outside) (s : Server) (l : Log) (o : Output) (r : Option Response)
    → RanChanges w s (run_missing w s l o r)
unfolding run_missing
run_missing-Changes w s l o none = tt
run_missing-Changes w s l o (some r) = same

run_static-Changes :
    (w : Outside) (s : Server) (o : Output) (found : Search)
    → RanChanges w s (run_static w s o found)
unfolding run_static
run_static-Changes w s o no_fuel = tt
run_static-Changes w s o (answer (some ep) l) = same
run_static-Changes w s o (answer none l) =
    run_missing-Changes w s l o (error_response (pos 404) (codes "Endpoint not found."))

run_callback-Changes :
    (w : Outside) (s : Server) (l : Log) (q : Received) (ep : Endpoint) (o : Output)
    (jar : Option Jar)
    → RanChanges w s (run_callback w s l q ep o jar)
unfolding run_callback
run_callback-Changes w s l q ep o none = tt
run_callback-Changes w s l q ep o (some jar) = called ep.callback (new_request q jar)

run_found-Changes :
    (fuel : ℕ) (w : Outside) (s : Server) (l : Log) (q : Received) (o : Output)
    (ep : Option Endpoint)
    → RanChanges w s (run_found fuel w s l q o ep)
unfolding run_found
run_found-Changes fuel w s l q o (some ep) =
    run_callback-Changes w s l q ep o (read_cookies (get_header q.headers (codes "Cookie")))
run_found-Changes fuel w s l q o none = run_static-Changes w s o (
    get_static_endpoint fuel s w.disk w.stray (c_str q.line.method) (some (c_str (host_value q)))
      (c_str q.line.path) l)

run_request-Changes :
    (fuel : ℕ) (w : Outside) (s : Server) (l : Log) (o : Output) (q : Received)
    → RanChanges w s (run_request fuel w s l o q)
unfolding run_request
run_request-Changes fuel w s l o q = elim (Bool-cases (is_empty q.line.path)) [
  | inl e ↦ rw (e, run_request) same
  | inr e ↦
      rw (e, run_request)
        (run_found-Changes fuel w s l q o
          (get_endpoint s (c_str q.line.path) (c_str q.line.method)))
]

run_body-Changes :
    (fuel : ℕ) (w : Outside) (s : Server) (l : Log) (o : Output) (headers : List VarVal)
    (line : RequestLine) (r : BodyRead)
    → RanChanges w s (run_body fuel w s l o headers line r)
unfolding run_body
run_body-Changes fuel w s l o headers line no_fuel = tt
run_body-Changes fuel w s l o headers line closed = same
run_body-Changes fuel w s l o headers line (body text i) =
    run_request-Changes fuel w s l o (record { headers = headers; line = line; text = text })

run_header-Changes :
    (reads fuel : ℕ) (w : Outside) (s : Server) (l : Log) (o : Output) (r : HeaderRead)
    → RanChanges w s (run_header reads fuel w s l o r)
unfolding run_header
run_header-Changes reads fuel w s l o no_fuel = tt
run_header-Changes reads fuel w s l o closed = same
run_header-Changes reads fuel w s l o malformed = same
run_header-Changes reads fuel w s l o (header headers line i) =
    run_body-Changes fuel w s l o headers line (read_body reads headers i)

-- Whatever a connection sends, its run calls one callback at most, and changes the server in no
-- other way.
pub run-Changes :
    (reads fuel : ℕ) (w : Outside) (s : Server) (l : Log) (i : Input) (o : Output) (r : Ran)
    → run reads fuel w s l i o ≡ some r
    → Changes w s r.server
unfolding run
run-Changes reads fuel w s l i o r e =
    subst (RanChanges w s) e (run_header-Changes reads fuel w s l o (read_header reads i))
