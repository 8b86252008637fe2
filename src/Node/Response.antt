-- ===== src/Node/Response.antt =====
-- `CNode::writeResponse` and `CNode::writeString`.
pub mod Sent
pub mod Lines
use solusek.Base.{
  ℕ, ◌%◌, Bool, true, false, List, [], ◌∷◌, ◌++◌, if◌then◌else◌, Bytes, codes, is_empty, drop_last,
  length, u32_mod,
}
use solusek.Model.{Cookie, Response, get_code_description}
use solusek.Decimal.{print_int, print_nat}
use solusek.Socket.{Output, Written, write_all}

abbrev pub crlf : Bytes
crlf = b'\r' ∷ b'\n' ∷ []

-- The date of the response, or else `asctime` without its newline.
unfoldable pub date_text : Bytes → Response → Bytes
date_text asctime r = if is_empty r.date then drop_last asctime else r.date

-- Up to the cookies, one entry for each `writeString`.
unfoldable pub status_pieces : Bytes → Response → List Bytes
status_pieces asctime r =
    codes "HTTP/1.1 "
    ∷ print_int r.code
    ∷ codes " "
    ∷ get_code_description r.code
    ∷ crlf
    ∷ codes "Date: "
    ∷ date_text asctime r
    ∷ crlf
    ∷ codes "Content-Type: "
    ∷ r.content_type
    ∷ crlf
    ∷ codes "Content-Length: "
    ∷ print_nat (length r.body % u32_mod)
    ∷ crlf
    ∷ codes "Last-Modified: "
    ∷ date_text asctime r
    ∷ crlf
    ∷ []

unfoldable pub sid_pieces : Bytes → List Bytes
sid_pieces sid =
    if is_empty sid
    then []
    else codes "Set-Cookie: "
      ∷ codes "SolusekSID"
      ∷ codes "="
      ∷ sid
      ∷ codes "; SameSite=Strict"
      ∷ codes "; Path=/"
      ∷ crlf
      ∷ []

unfoldable pub path_pieces : Bytes → List Bytes
path_pieces path = if is_empty path then [] else codes "; Path=" ∷ path ∷ []

unfoldable pub cookie_pieces : List Cookie → List Bytes
cookie_pieces [] = []
cookie_pieces (c ∷ cs) =
    codes "Set-Cookie: "
    ∷ c.name
    ∷ codes "="
    ∷ c.value
    ∷ codes "; SameSite=Strict"
    ∷ (path_pieces c.path ++ crlf ∷ cookie_pieces cs)

abbrev pub last_pieces : Bytes → List Bytes
last_pieces body =
    codes "Server: Solusek/1.0 (Linux)\r\n" ∷ codes "Connection: close\r\n" ∷ crlf ∷ body ∷ []

unfoldable pub response_pieces : Bytes → Response → List Bytes
response_pieces asctime r =
    status_pieces asctime r ++ (sid_pieces r.sid ++ (cookie_pieces r.cookies ++ last_pieces r.body))

-- `asctime` is the text that the C library gives for the present time.
unfoldable pub write_response : Bytes → Response → Output → Written
write_response asctime r o = write_all (response_pieces asctime r) o
