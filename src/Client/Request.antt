-- ===== src/Client/Request.antt =====
-- `CClient::runRequest`: the request as it is built and written.
pub mod Sent
pub mod Served
use solusek.Base.{
  ℕ, zero, suc, ◌+◌, ◌-◌, Bool, true, false, List, [], ◌∷◌, ◌++◌, Bytes, codes, ltb, if◌then◌else◌,
  take, drop, length, is_empty,
}
use solusek.Decimal.{print_nat}
use solusek.StringMap.{StringMap}
use solusek.Socket.{Output, Written, write_all}
use solusek.Client.{Client}
use solusek.Client.Url.{Target}

abbrev pub crlf : Bytes
crlf = b'\r' ∷ b'\n' ∷ []

-- The loop over `AdditionalHeaders`.
unfoldable pub header_lines : StringMap → Bytes
header_lines [] = []
header_lines ((name, val) ∷ m) = name ++ (codes ": " ++ (val ++ (crlf ++ header_lines m)))

-- The line with the length, for a body that is not empty.
unfoldable pub length_line : Bytes → Bytes
length_line body =
    if is_empty body then [] else codes "Content-length: " ++ (print_nat (length body) ++ crlf)

-- `data`
unfoldable pub request_head : Client → Target → Bytes → Bytes
unfolding header_lines length_line
request_head c t body =
    c.method
    ++ (codes " "
        ++ (t.path
            ++ (codes " HTTP/1.1\r\n"
                ++ (codes "Host: "
                    ++ (t.host
                        ++ (crlf
                            ++ (header_lines c.additional_headers
                                ++ (length_line body ++ crlf))))))))

-- The rounds of the loop that writes the body, from the place `done` on: what each writes. The size
-- `chunk` of a write is cut for the last one.
unfoldable pub body_pieces : ℕ → Bytes → ℕ → ℕ → List Bytes
body_pieces zero body done chunk = []
body_pieces (suc fuel) body done chunk =
    let size = if ltb (length body) (done + chunk) then length body - done else chunk in
    elim (ltb done (length body)) [
      | true ↦ take size (drop done body) ∷ body_pieces fuel body (done + size) size
      | false ↦ []
    ]

unfoldable pub request_pieces : Client → Target → Bytes → List Bytes
unfolding request_head body_pieces
request_pieces c t body = request_head c t body ∷ body_pieces (suc (length body)) body 0 1024

-- Up to "Sent request!".
unfoldable pub write_request : Client → Target → Bytes → Output → Written
unfolding request_pieces
write_request c t body o = write_all (request_pieces c t body) o
