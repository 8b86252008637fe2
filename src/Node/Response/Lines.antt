-- ===== src/Node/Response/Lines.antt =====
-- The response of `CNode::writeResponse` as a status line, header lines and a body.
use solusek.Base.{◌∷◌, ◌++◌, map, ◌≡◌, ap, ◌∙◌, Bytes}
use solusek.Model.{Response}
use solusek.Socket.{Output, wrote, Takes}
use solusek.Node.Header.Lines.{block}
use solusek.Node.Header.Parse.{field_line}
use solusek.Node.Response.{response_pieces, write_response}
use solusek.Node.Response.Sent.{IsSendable, write_response-whole}
use solusek.Client.Reply.FromServer.Fields.{status_line, response_fields, response_text-block}

-- The whole response goes out when its date, content type, body and the names and values of its
-- cookies are not empty and the sends to come take each piece that is written whole, which is below
-- 2^31 bytes: the status line, the header lines Date, Content-Type, Content-Length, Last-Modified,
-- a Set-Cookie for the session and one for each cookie, Server and Connection, an empty line and the
-- body.
pub write_response-lines :
    (asctime : Bytes) (r : Response) (o : Output)
    → IsSendable asctime r
    → Takes (response_pieces asctime r) o.sends
    → (o' : Output) × (write_response asctime r o ≡ wrote o')
      × (o'.sent
          ≡ o.sent ++ block (status_line r ∷ map field_line (response_fields asctime r)) r.body)
write_response-lines asctime r o h n =
    let (o', e, f) = write_response-whole asctime r o h n in
    (o', e, f ∙ ap (λ t. o.sent ++ t) (response_text-block asctime r))
