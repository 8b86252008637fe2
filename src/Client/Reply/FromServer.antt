-- ===== src/Client/Reply/FromServer.antt =====
-- A response of `CNode::writeResponse` as `CClient::runRequest` reads it.
pub mod Fields
use solusek.Base.{
  ℕ, ◌%◌, ◌<◌, false, List, [], ◌∷◌, ◌++◌, map, ◌≡◌, ◌≢◌, refl, sym, ap, ◌∙◌, subst, arith, some,
  if◌then◌else◌, Bytes, codes, c_str, c_str-Lacks, find-append, take-append, length, concat, All,
  All-append, Lacks, append_assoc, append-nil, is_empty, str_eq, u32_mod, u32_of_int, ℤ, pos,
  negsuc,
}
use solusek.Decimal.{print_nat, print_int, atoi}
use solusek.Decimal.RoundTrip.{
  print_nat-ne-nil, print_nat-Lacks, print_nat-IsDigits, atoi-print_nat, IsDigits,
}
use solusek.Text.{trim, strtolower, ltrim, rtrim}
use solusek.Text.Trim.{Starts, Ends, trim_padded}
use solusek.Model.{VarVal, Cookie, Response, get_code_description}
use solusek.StringMap.{StringMap, map_at}
use solusek.StringMap.Laws.{map_at-set}
use solusek.Socket.{Input, stream}
use solusek.Node.Header.Lines.{IsText, block}
use solusek.Node.Header.Parse.{field_line}
use solusek.Node.Response.{
  date_text, status_pieces, sid_pieces, path_pieces, cookie_pieces, last_pieces, response_pieces,
}
use solusek.Node.Response.Sent.{response_text}
use solusek.Client.Request.Served.{trim-print_nat}
use solusek.Client.Reply.{
  Reading, at_start, full_reply, reply_of, read_bytes, status_code, keep_header, read_resp,
  after_loop, reply_loop, read_reply,
}
use solusek.Client.Reply.Lines.{
  IsHeaderLine, keep_all, header_bytes-block, Agrees, reply_loop-Agrees, map_at-keep_header,
}
use solusek.Client.Reply.Counted.{ReadsBytes, got_whole, read_bytes-ReadsBytes}
use solusek.Client.Reply.FromServer.Fields.{
  status_line, response_fields, response_text-block, after_header, content_type-after_header,
  length-after_header, location-after_header,
}

-- A response that a client can read: a status code and a body below 2^31, a content type with no
-- space at its ends, and header lines that are text and hold no "HTTP/1.1".
pub record IsReadable (asctime : Bytes) (r : Response) (code : ℕ) : Type 0 where
  pub coded : r.code ≡ pos code
  pub low : code < 2147483648
  pub short : length r.body < 2147483648
  pub typed : r.content_type ≢ []
  pub starts : Starts r.content_type
  pub ends : Ends r.content_type
  pub lines : All IsHeaderLine (map field_line (response_fields asctime r))

status_code-line :
    (n : ℕ) (desc : Bytes)
    → n < 2147483648
    → status_code (codes "HTTP/1.1 " ++ (print_nat n ++ (b' ' ∷ desc))) ≡ pos n
unfolding status_code
status_code-line n desc low =
    let digits = c_str-Lacks (print_nat n) (print_nat-Lacks 0 n (ground arith)) in
    rw
      (
        find-append b' ' (print_nat n) desc (print_nat-Lacks b' ' n (ground arith)),
        take-append (print_nat n) (b' ' ∷ desc),
        digits,
      )
      (ap atoi (sym (append-nil (print_nat n))) ∙ atoi-print_nat n [] low tt)

digits-IsText : (s : Bytes) → IsDigits s → IsText s
digits-IsText [] h = tt
digits-IsText (c ∷ s) h = ((ground arith), digits-IsText s h.1)

get_code_description-IsText : (n : ℤ) → IsText (get_code_description n)
unfolding get_code_description
get_code_description-IsText (pos n) = ground arith
get_code_description-IsText (negsuc n) = ground arith

status_line-IsText :
    (n : ℕ) (desc : Bytes)
    → IsText desc
    → IsText (codes "HTTP/1.1 " ++ (print_nat n ++ (b' ' ∷ desc)))
status_line-IsText n desc h =
    All-append (λ c. (c ≢ b'\r') × (c ≢ b'\n') × (c ≢ 0)) (codes "HTTP/1.1 ")
      (print_nat n ++ (b' ' ∷ desc)) (ground arith)
      (All-append (λ c. (c ≢ b'\r') × (c ≢ b'\n') × (c ≢ 0)) (print_nat n) (b' ' ∷ desc)
        (digits-IsText (print_nat n) (print_nat-IsDigits n)) ((ground arith), h))

read_resp-length :
    (fuel stray : ℕ) (st : Reading) (c s : Bytes) (i : Input)
    → map_at (codes "content-length") st.headers ≡ print_nat (length c)
    → length c < 2147483648
    → stream i ≡ c ++ s
    → read_resp fuel stray st i ≡ some (full_reply st c)
unfolding read_resp reply_of
read_resp-length fuel stray st c s i e small split =
    let given = filled (print_nat (length c)) (print_nat-ne-nil (length c)) in
    let digits = c_str-Lacks (print_nat (length c)) (print_nat-Lacks 0 (length c) (ground arith)) in
    let count : u32_of_int (atoi (c_str (print_nat (length c)))) ≡ length c =
      ap u32_of_int (
        ap atoi (digits ∙ sym (append-nil (print_nat (length c))))
        ∙ atoi-print_nat (length c) [] small tt)
      ∙ omega arith in
    let (i', got, left) = got_whole c s [] (
      subst (λ t. ReadsBytes t [] (length c) (read_bytes (length c) [] i)) split
        (read_bytes-ReadsBytes (length c) [] i)) in
    rw (e, given, read_resp) (rw count (rw got refl))
  where
    filled : (s : Bytes) → s ≢ [] → is_empty s ≡ false
    filled [] ne = absurd (ne refl)
    filled (x ∷ s) ne = refl

-- A response that the server wrote whole and that a client can read is read back, however its bytes
-- arrive and with more fuel than bytes: the code, the body and the content type are those of the
-- response, and the location is empty, whatever the response's own.
pub read_reply-response_text :
    (fuel stray : ℕ) (asctime : Bytes) (r : Response) (code : ℕ) (i : Input)
    → IsReadable asctime r code
    → stream i ≡ response_text asctime r
    → length (stream i) < fuel
    → read_reply fuel stray i
      ≡ some
          (record { code = pos code; resp = r.body; content_type = r.content_type; location = [] })
unfolding read_reply after_loop
read_reply-response_text fuel stray asctime r code i h e fits =
    let st : Reading = record {
      code = status_code (status_line r);
      headers = after_header asctime r;
      line = [];
      ex = 2;
    } in
    let desc = get_code_description r.code in
    let written : status_line r ≡ codes "HTTP/1.1 " ++ (print_nat code ++ (b' ' ∷ desc)) =
      ap (λ (c : ℤ). codes "HTTP/1.1 " ++ (print_int c ++ (b' ' ∷ desc))) h.coded
      ∙ (unfold print_int in refl) in
    let text : IsText (status_line r) =
      subst IsText (sym written)
        (status_line-IsText code desc (get_code_description-IsText r.code)) in
    let parsed =
      header_bytes-block (status_line r) (map field_line (response_fields asctime r)) r.body
        (text, (λ k. cc)) (λ k. cc) h.lines in
    let whole_text : stream i
        ≡ block (status_line r ∷ map field_line (response_fields asctime r)) r.body =
      e ∙ response_text-block asctime r in
    let (i', is, left) =
      subst (λ o. Agrees o (reply_loop fuel at_start i)) parsed
        (reply_loop-Agrees fuel at_start i
          (block (status_line r ∷ map field_line (response_fields asctime r)) r.body) whole_text
          (subst (λ t. length t < fuel) whole_text fits)) in
    let counted : map_at (codes "content-length") st.headers ≡ print_nat (length r.body) =
      length-after_header asctime r
      ∙ trim-print_nat (length r.body % u32_mod)
      ∙ ap print_nat (small (length r.body) h.short) in
    ap (after_loop fuel stray) is
    ∙ read_resp-length fuel stray st r.body [] i' counted h.short (left ∙ sym (append-nil r.body))
    ∙ ap some (
        same st (ap status_code written ∙ status_code-line code desc h.low)
          (content_type-after_header asctime r
            ∙ trim_padded (b' ' ∷ []) r.content_type (ground arith, tt) h.starts h.ends)
          (location-after_header asctime r) h.typed)
  where
    small : (n : ℕ) → n < 2147483648 → n % u32_mod ≡ n
    small n h = omega arith

    same :
        (st : Reading) {c : ℤ} {t b : Bytes}
        → st.code ≡ c
        → map_at (codes "content-type") st.headers ≡ t
        → map_at (codes "location") st.headers ≡ []
        → t ≢ []
        → full_reply st b ≡ record { code = c; resp = b; content_type = t; location = [] }
    same st {t = []} e f g ne = absurd (ne refl)
    same st {t = x ∷ t} e f g ne = rw (e, f, g) refl
