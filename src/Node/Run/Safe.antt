-- ===== src/Node/Run/Safe.antt =====
-- What files a connection can make the server open.
use solusek.Base.{ℕ, List, Option, none, some, inl, inr, Bool-cases, is_empty, All}
use solusek.Model.{VarVal, Endpoint, Response}
use solusek.Socket.{Input, Output}
use solusek.Files.{Log}
use solusek.Server.{Server}
use solusek.Server.Static.{Search, no_fuel, answer}
use solusek.Server.Static.Safe.{IsInside, Keeps, get_static_endpoint-Safe}
use solusek.Node.Header.{HeaderRead, closed, malformed, no_fuel, header, RequestLine}
use solusek.Node.Body.{BodyRead, closed, no_fuel, body}
use solusek.Node.Cookies.{Jar}
use solusek.Node.Run.{
  Outside, Ran, Received, run_callback, run_missing, run_static, run_found, run_request, run_body,
  run_header, run,
}

-- What a run may have opened.
abbrev pub RunKeeps : Server → Option Ran → Type 0
RunKeeps s none = Unit
RunKeeps s (some r) = All (IsInside s) r.log.opened

run_missing-Safe :
    (w : Outside) (s s' : Server) (l : Log) (o : Output) (r : Option Response)
    → All (IsInside s') l.opened
    → RunKeeps s' (run_missing w s l o r)
unfolding run_missing
run_missing-Safe w s s' l o none h = tt
run_missing-Safe w s s' l o (some r) h = h

run_static-Safe :
    (w : Outside) (s : Server) (o : Output) (r : Search)
    → Keeps (IsInside s) r
    → RunKeeps s (run_static w s o r)
unfolding run_static
run_static-Safe w s o no_fuel h = tt
run_static-Safe w s o (answer none l) h = run_missing-Safe w s s l o _ h
run_static-Safe w s o (answer (some e) l) h = h.0

run_callback-Safe :
    (w : Outside) (s : Server) (l : Log) (q : Received) (ep : Endpoint) (o : Output)
    (jar : Option Jar)
    → All (IsInside s) l.opened
    → RunKeeps s (run_callback w s l q ep o jar)
unfolding run_callback
run_callback-Safe w s l q ep o none h = tt
run_callback-Safe w s l q ep o (some jar) h = h

run_found-Safe :
    (fuel : ℕ) (w : Outside) (s : Server) (l : Log) (q : Received) (o : Output)
    (ep : Option Endpoint)
    → All (IsInside s) l.opened
    → RunKeeps s (run_found fuel w s l q o ep)
unfolding run_found
run_found-Safe fuel w s l q o none h =
    run_static-Safe w s o _ (get_static_endpoint-Safe fuel s w.disk w.stray _ _ _ l h)
run_found-Safe fuel w s l q o (some ep) h = run_callback-Safe w s l q ep o _ h

run_request-Safe :
    (fuel : ℕ) (w : Outside) (s : Server) (l : Log) (o : Output) (q : Received)
    → All (IsInside s) l.opened
    → RunKeeps s (run_request fuel w s l o q)
unfolding run_request
run_request-Safe fuel w s l o q h = elim (Bool-cases (is_empty q.line.path)) [
  | inl e ↦ rw (e, run_request) h
  | inr e ↦ rw (e, run_request) (run_found-Safe fuel w s l q o _ h)
]

run_body-Safe :
    (fuel : ℕ) (w : Outside) (s : Server) (l : Log) (o : Output) (headers : List VarVal)
    (line : RequestLine) (r : BodyRead)
    → All (IsInside s) l.opened
    → RunKeeps s (run_body fuel w s l o headers line r)
unfolding run_body
run_body-Safe fuel w s l o headers line no_fuel h = tt
run_body-Safe fuel w s l o headers line closed h = h
run_body-Safe fuel w s l o headers line (body text i) h =
    run_request-Safe fuel w s l o (record { headers = headers; line = line; text = text }) h

run_header-Safe :
    (reads fuel : ℕ) (w : Outside) (s : Server) (l : Log) (o : Output) (r : HeaderRead)
    → All (IsInside s) l.opened
    → RunKeeps s (run_header reads fuel w s l o r)
unfolding run_header
run_header-Safe reads fuel w s l o no_fuel h = tt
run_header-Safe reads fuel w s l o closed h = h
run_header-Safe reads fuel w s l o malformed h = h
run_header-Safe reads fuel w s l o (header headers line i) h =
    run_body-Safe fuel w s l o headers line _ h

-- Whatever bytes a connection sends and whatever the callbacks do, every file that its run opens
-- lies below a static directory, with no ".." behind it, if that holds of the files in the log
-- before.
pub run-Safe :
    (reads fuel : ℕ) (w : Outside) (s : Server) (l : Log) (i : Input) (o : Output)
    → All (IsInside s) l.opened
    → RunKeeps s (run reads fuel w s l i o)
unfolding run
run-Safe reads fuel w s l i o h = run_header-Safe reads fuel w s l o _ h
