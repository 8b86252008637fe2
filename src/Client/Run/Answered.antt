-- ===== src/Client/Run/Answered.antt =====
-- What `CClient::runRequest` returns.
use solusek.Base.{List, ◌∷◌, All, ◌++◌, ◌≡◌, concat, Option, some, Bytes}
use solusek.Model.{Response, new_response}
use solusek.Socket.Stream.{Cuts}
use solusek.Client.{Client}
use solusek.Client.Url.{Target}
use solusek.Client.Request.{request_head}
use solusek.Client.Request.Sent.{IsPiece}
use solusek.Client.Reply.{Reply}
use solusek.Client.Run.{Peer, Finished, socket_settings, for_target}

-- The response as the caller should have it, which is not given a date, an id or cookies.
abbrev pub response_meant : Response → Response
response_meant r = record new_response {
  code = r.code;
  body = r.body;
  content_type = r.content_type;
}

-- What a call has done.
pub record Answers (w : Peer) (c : Client) (t : Target) (body : Bytes) (r : Response)
    (result : Option Finished) : Type 0 where
  pub end : Finished
  pub is : result ≡ some end
  pub socket : end.socket ≡ some (socket_settings (for_target c t) w, t)
  pub sent : end.output.sent ≡ w.output.sent ++ (request_head (for_target c t) t body ++ body)
  pub response : end.response ≡ response_meant r

-- What a call leaves in any case: of each piece of the request, up to one, the front went out, and the
-- client is the one that it was but for `UseSSL`, which an https endpoint sets.
pub record Returns (w : Peer) (c : Client) (t : Target) (body : Bytes) (result : Option Finished)
    : Type 0 where
  pub end : Finished
  pub is : result ≡ some end
  pub kept : end.client ≡ for_target c t
  pub out : Bytes
  pub pieces : List Bytes
  pub whole : concat pieces ≡ body
  pub small : All IsPiece pieces
  pub cuts : Cuts (request_head (for_target c t) t body ∷ pieces) out
  pub sent : end.output.sent ≡ w.output.sent ++ out
