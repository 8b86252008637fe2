-- ===== src/Exchange.antt =====
-- A client and a server together: src/client/CClient.cpp over a connection to src/server/CNode.cpp. What one
-- has written is what arrives at the other, in pieces of any size.
use solusek.Base.{ℕ, [], ◌++◌, ◌≡◌, ap, ◌∙◌, Option, some, Bytes}
use solusek.Model.{Endpoint, Request, Response}
use solusek.Socket.{Input, Output, stream, output, Takes}
use solusek.Files.{Log}
use solusek.Server.{Server}
use solusek.Node.Header.Parse.{query_text}
use solusek.Node.Response.{response_pieces, write_response}
use solusek.Node.Response.Sent.{IsSendable, response_text, write_response-whole}
use solusek.Node.Run.{Outside, Ran, respond}
use solusek.Client.{Client}
use solusek.Client.Url.{Target}
use solusek.Client.Reply.FromServer.{IsReadable}
use solusek.Client.Run.{Finished}
use solusek.Client.Run.Answered.{response_meant}

-- A response that goes out whole on this connection and that a client can read.
pub record IsCarried (asctime : Bytes) (o : Output) (code : ℕ) (r : Response) : Type 0 where
  pub readable : IsReadable asctime r code
  pub sendable : IsSendable asctime r
  pub room : Takes (response_pieces asctime r) o.sends

-- What both sides come to: the request that the callback sees, and the response that the caller gets.
pub record Exchanged (v : Outside) (s : Server) (l : Log) (o : Output) (i : Input) (t : Target)
    (q : Option Bytes) (body : Bytes) (ep : Endpoint) (ran : Option Ran) (end : Option Finished)
    : Type 0 where
  pub request : Request
  pub same_body : request.body ≡ body
  pub same_host : request.host ≡ t.host
  pub same_query : request.query_string ≡ query_text q
  pub served :
      let answer = v.call ep.callback s request in ran ≡ some (respond v answer.0 l answer.1 o)
  pub finished : Finished
  pub returned : end ≡ some finished
  pub carried : finished.output.sent ≡ stream i
  pub response : finished.response ≡ response_meant (v.call ep.callback s request).1

pub written_text :
    (v : Outside) (o : Output) (r : Response) (code : ℕ)
    → IsCarried v.asctime o code r
    → o.sent ≡ []
    → (output (write_response v.asctime r o)).sent ≡ response_text v.asctime r
written_text v o r code h fresh =
    let (o', e, f) = write_response-whole v.asctime r o h.sendable h.room in
    ap (λ k. (output k).sent) e ∙ f ∙ ap (λ k. k ++ response_text v.asctime r) fresh
