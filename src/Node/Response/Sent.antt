-- ===== src/Node/Response/Sent.antt =====
-- What of a response reaches the connection.
use solusek.Base.{
  ℕ, ◌%◌, List, [], ◌∷◌, ◌++◌, ◌≡◌, ◌≢◌, refl, sym, ap, ◌∙◌, arith, Bytes, All, codes, length,
  concat, append_assoc, u32_mod, ℤ, pos, negsuc,
}
use solusek.Model.{Cookie, Response, get_code_description}
use solusek.Decimal.{print_int}
use solusek.Decimal.RoundTrip.{print_nat-ne-nil}
use solusek.Socket.{Output, wrote, threw, write_all, Takes}
use solusek.Socket.Stream.{Sends, write_all-Sends, write_all-wrote, write_all-empty}
use solusek.Node.Response.{
  date_text, status_pieces, sid_pieces, crlf, path_pieces, cookie_pieces, last_pieces,
  response_pieces, write_response,
}

abbrev pub response_text : Bytes → Response → Bytes
response_text asctime r = concat (response_pieces asctime r)

-- Whatever the response and the connection: the front of each of the pieces goes out, up to one.
pub write_response-Sends :
    (asctime : Bytes) (r : Response) (o : Output)
    → Sends (response_pieces asctime r) o (write_response asctime r o)
unfolding write_response
write_response-Sends asctime r o = write_all-Sends (response_pieces asctime r) o

abbrev IsNonempty : Bytes → Type 0
IsNonempty p = p ≢ []

pub record IsSendable (asctime : Bytes) (r : Response) : Type 0 where
  pub dated : date_text asctime r ≢ []
  pub typed : r.content_type ≢ []
  pub bodied : r.body ≢ []
  pub cookies : All (λ (c : Cookie). (c.name ≢ []) × (c.value ≢ [])) r.cookies

-- None of the pieces is empty; literal text is seen not to be.
data Filled : List Bytes → Type 0 where
  nil : Filled []
  literal : {x : ℕ} {p : Bytes} {ps : List Bytes} → Filled ps → Filled ((x ∷ p) ∷ ps)
  given : {p : Bytes} {ps : List Bytes} → p ≢ [] → Filled ps → Filled (p ∷ ps)

Filled-All : {ps : List Bytes} → Filled ps → All IsNonempty ps
Filled-All nil = tt
Filled-All (literal f) = ((λ k. cc), Filled-All f)
Filled-All (given ne f) = (ne, Filled-All f)

Filled-append : {ps qs : List Bytes} → Filled ps → Filled qs → Filled (ps ++ qs)
Filled-append nil g = g
Filled-append (literal f) g = literal (Filled-append f g)
Filled-append (given ne f) g = given ne (Filled-append f g)

print_int-ne-nil : (n : ℤ) → print_int n ≢ []
unfolding print_int
print_int-ne-nil (pos n) = print_nat-ne-nil n
print_int-ne-nil (negsuc n) = λ k. cc

get_code_description-ne-nil : (n : ℤ) → get_code_description n ≢ []
unfolding get_code_description
get_code_description-ne-nil (pos n) = ground arith
get_code_description-ne-nil (negsuc n) = λ k. cc

path_pieces-Filled : (p : Bytes) → Filled (path_pieces p)
unfolding path_pieces
path_pieces-Filled [] = nil
path_pieces-Filled (x ∷ p) = literal (literal nil)

sid_pieces-Filled : (s : Bytes) → Filled (sid_pieces s)
unfolding sid_pieces
sid_pieces-Filled [] = nil
sid_pieces-Filled (x ∷ s) = literal (literal (literal (literal (literal (literal (literal nil))))))

cookie_pieces-Filled :
    (cs : List Cookie)
    → All (λ (c : Cookie). (c.name ≢ []) × (c.value ≢ [])) cs
    → Filled (cookie_pieces cs)
unfolding cookie_pieces
cookie_pieces-Filled [] h = nil
cookie_pieces-Filled (c ∷ cs) h = literal (
    given h.0.0 (
      literal (
        given h.0.1 (
          literal
            (Filled-append (path_pieces-Filled c.path) (literal (cookie_pieces-Filled cs h.1)))))))

status_pieces-Filled :
    (asctime : Bytes) (r : Response)
    → date_text asctime r ≢ []
    → r.content_type ≢ []
    → Filled (status_pieces asctime r)
unfolding status_pieces
status_pieces-Filled asctime r d t = literal (
    given (print_int-ne-nil r.code) (
      literal (
        given (get_code_description-ne-nil r.code) (
          literal (
            literal (
              given d (
                literal (
                  literal (
                    given t (
                      literal (
                        literal (
                          given (print_nat-ne-nil (length r.body % u32_mod))
                            (literal (literal (given d (literal nil))))))))))))))))

-- The whole response goes out when its date, content type, body and the names and values of its
-- cookies are not empty and the sends to come take each piece whole, which are below 2^31 bytes.
pub write_response-whole :
    (asctime : Bytes) (r : Response) (o : Output)
    → IsSendable asctime r
    → Takes (response_pieces asctime r) o.sends
    → (o' : Output) × (write_response asctime r o ≡ wrote o')
      × (o'.sent ≡ o.sent ++ response_text asctime r)
unfolding write_response response_pieces
write_response-whole asctime r o h n =
    write_all-wrote (response_pieces asctime r) o
      (Filled-All (
        Filled-append (status_pieces-Filled asctime r h.dated h.typed) (
          Filled-append (sid_pieces-Filled r.sid) (
            Filled-append (cookie_pieces-Filled r.cookies h.cookies)
              (literal (literal (literal (given h.bodied nil))))))))
      n

cookie_pieces-append :
    (cs ds : List Cookie) → cookie_pieces (cs ++ ds) ≡ cookie_pieces cs ++ cookie_pieces ds
unfolding cookie_pieces
cookie_pieces-append [] ds = refl
cookie_pieces-append (c ∷ cs) ds =
    ap
      (λ (t : List Bytes).
        codes "Set-Cookie: "
        ∷ c.name
        ∷ codes "="
        ∷ c.value
        ∷ codes "; SameSite=Strict"
        ∷ (path_pieces c.path ++ crlf ∷ t))
      (cookie_pieces-append cs ds)
    ∙ ap
        (λ (t : List Bytes).
          codes "Set-Cookie: " ∷ c.name ∷ codes "=" ∷ c.value ∷ codes "; SameSite=Strict" ∷ t)
        (sym (append_assoc (path_pieces c.path) (crlf ∷ cookie_pieces cs) (cookie_pieces ds)))

-- The pieces in front of the value of a cookie.
abbrev pub pieces_before : Bytes → Response → List Cookie → Cookie → List Bytes
pieces_before asctime r before c =
    status_pieces asctime r
    ++ (sid_pieces r.sid
        ++ (cookie_pieces before ++ (codes "Set-Cookie: " ∷ c.name ∷ codes "=" ∷ [])))

-- The pieces behind it.
abbrev pieces_after : Response → List Cookie → Cookie → List Bytes
pieces_after r after c =
    codes "; SameSite=Strict"
    ∷ ((path_pieces c.path ++ crlf ∷ cookie_pieces after) ++ last_pieces r.body)

response_pieces_at :
    (asctime : Bytes) (r : Response) (before after : List Cookie) (c : Cookie)
    → r.cookies ≡ before ++ c ∷ after
    → response_pieces asctime r
      ≡ pieces_before asctime r before c ++ c.value ∷ pieces_after r after c
unfolding response_pieces
response_pieces_at asctime r before after c split =
    rw (split, cookie_pieces-append before (c ∷ after))
      (simp append_assoc (unfold cookie_pieces in simp append_assoc))

pieces_before-Filled :
    (asctime : Bytes) (r : Response) (before : List Cookie) (c : Cookie)
    → date_text asctime r ≢ []
    → r.content_type ≢ []
    → All (λ (c : Cookie). (c.name ≢ []) × (c.value ≢ [])) before
    → c.name ≢ []
    → Filled (pieces_before asctime r before c)
pieces_before-Filled asctime r before c d t h ne =
    Filled-append (status_pieces-Filled asctime r d t) (
      Filled-append (sid_pieces-Filled r.sid)
        (Filled-append (cookie_pieces-Filled before h) (literal (given ne (literal nil)))))

-- A cookie with a name and an empty value ends the response behind its equals sign, if the date,
-- the content type and the cookies before it are not empty: the rest of the header and the body
-- are never sent, on a connection whose sends take each piece in front of the value whole.
pub write_response_empty_cookie :
    (asctime : Bytes) (r : Response) (o : Output) (before after : List Cookie) (c : Cookie)
    → date_text asctime r ≢ []
    → r.content_type ≢ []
    → r.cookies ≡ before ++ c ∷ after
    → All (λ (c : Cookie). (c.name ≢ []) × (c.value ≢ [])) before
    → c.name ≢ []
    → c.value ≡ []
    → Takes (pieces_before asctime r before c) o.sends
    → (o' : Output) × (write_response asctime r o ≡ threw o')
      × (o'.sent ≡ o.sent ++ concat (pieces_before asctime r before c))
unfolding write_response
write_response_empty_cookie asctime r o before after c d t split h ne e n =
    let ps = pieces_before asctime r before c in
    let at =
      response_pieces_at asctime r before after c split
      ∙ ap (λ v. ps ++ v ∷ pieces_after r after c) e in
    let (o', threw_it, sent) =
      write_all-empty ps (pieces_after r after c) o
        (Filled-All (pieces_before-Filled asctime r before c d t h ne)) n in
    (o', ap (λ ps. write_all ps o) at ∙ threw_it, sent)
