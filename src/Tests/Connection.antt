-- ===== src/Tests/Connection.antt =====
-- One connection: src/server/CNode.cpp.
use Prim.Native.String.{String}
use solusek.Base.{
  map, sym, ap, ◌∙◌, subst, ◌+◌, ◌≤◌, List, [], ◌∷◌, ◌≡◌, ◌≢◌, refl, arith, none, some, Bytes,
  codes, c_str, find_str, concat, Lacks, u32_mod, u32_of_int,
}
use solusek.Decimal.{atoi, print_int, print_nat}
use solusek.Model.{
  VarVal, new_cookie, Response, new_response, get_code_description, Endpoint, new_endpoint,
}
use solusek.Socket.{healthy, Takes, Input, Output, wrote, threw}
use solusek.Files.{Log}
use solusek.Server.{Server, get_endpoint, find_endpoint}
use solusek.Node.Header.{read_header, get_header, find_header}
use solusek.Node.Header.Lines.{block}
use solusek.Node.Response.Lines.{write_response-lines}
use solusek.Client.Reply.FromServer.Fields.{status_line, response_fields}
use solusek.Node.Header.Parse.{
  field_line, Head, IsHead, head_text, field_value, ReadsHead, read_header-Head,
}
use solusek.Node.Body.{default_chunk_size, read_body}
use solusek.Node.Body.Total.{ReadsBody, read_body-ReadsBody}
use solusek.Node.Cookies.{parse_cookies}
use solusek.Node.Cookies.Parse.{parse_cookies-text}
use solusek.Node.Response.{
  write_response, response_pieces, status_pieces, sid_pieces, path_pieces, cookie_pieces, date_text,
}
use solusek.Node.Response.Sent.{IsSendable, write_response_empty_cookie, pieces_before}
use solusek.Text.{trim, rtrim, ltrim, strtolower}
use solusek.Node.Run.Gets.{announced, IsSentWith}
use solusek.Node.Run.{value_or_empty, Outside, respond, run}
use solusek.Node.Run.Answer.{Called, run-Called, run_dots, not_found}
use solusek.Node.Run.Safe.{run-Safe, RunKeeps}

abbrev field : String → String → VarVal
field n v = record { var = codes n; val = codes v }

-- A request with a query and a body.
abbrev hello : Head
hello = record {
  method = codes "GET";
  path = codes "/hi";
  query = some (codes "a=1");
  version = codes "HTTP/1.1";
  fields = field "Host" " h" ∷ field "Content-Length" " 2" ∷ [];
}

abbrev hello_in : Input
hello_in = record { pending = []; arrivals = head_text hello [] ∷ codes "ok" ∷ [] }

hello-IsHead : IsHead hello
hello-IsHead = record {
  method_word = ground arith;
  path_word = ground arith;
  path_end = ground arith;
  query_word = ground arith;
  no_colon = ground arith;
  text = ground arith;
  names = ground arith;
  lines = ground arith;
}

abbrev hi : Endpoint
hi = new_endpoint (codes "/hi") 7 (codes "GET")

abbrev greeting : Server
greeting = record {
  endpoints = hi ∷ [];
  static_endpoints = [];
  static_indexes = [];
  sessions = [];
  mime_types = [];
  incremental = 0;
}

abbrev outside : Outside
outside = record {
  call = λ n s r. (s, record new_response { body = r.body });
  asctime = codes "now\n";
  disk = record { open_file = λ name. none; mod_time = λ name. [] };
  stray = 0;
}

abbrev no_log : Log
no_log = record { opened = []; handles = 0 }

abbrev wire : Output
wire = record { sent = []; sends = healthy 100 }

length_field : field_value (codes "content-length") hello.fields ≡ some (codes "2")
unfolding trim rtrim ltrim strtolower
length_field = refl

two : announced (codes "2") ≡ 2
unfolding atoi
two = refl

hello-IsSentWith : IsSentWith hello (codes "ok")
hello-IsSentWith v e =
    subst
      (λ v. (announced v + default_chunk_size ≤ u32_mod) × (announced v ≤ 2) × Lacks 0 (codes "ok"))
      (ap value_or_empty (sym length_field ∙ e)) (ground (arith, two))

run-Called_example :
    Called outside greeting no_log wire hello
      (codes "ok")
      hi
      (run 200 2 outside greeting no_log hello_in wire)
unfolding get_endpoint find_endpoint
run-Called_example =
    run-Called 200 2 outside greeting no_log hello_in wire hello (codes "ok") hi hello-IsHead
      (ground arith) hello-IsSentWith refl (ground arith) refl

read_header-Head_example : ReadsHead hello (codes "ok") (read_header 200 hello_in)
read_header-Head_example =
    read_header-Head 200 hello_in hello (codes "ok") hello-IsHead refl (ground arith)

-- The header lines of a request with a body of five bytes.
abbrev five : List VarVal
five = field "content-length" "5" ∷ []

five_found : get_header five (codes "content-length") ≡ some (codes "5")
unfolding get_header find_header strtolower
five_found = refl

five_long : u32_of_int (atoi (c_str (codes "5"))) ≡ 5
unfolding atoi
five_long = refl

abbrev split_body : Input
split_body = record { pending = codes "ab"; arrivals = codes "c" ∷ codes "defg" ∷ [] }

read_body-ReadsBody_example :
    ReadsBody
      (codes "abcdefg")
      (u32_of_int (atoi (c_str (codes "5"))))
      []
      (read_body 9 five split_body)
read_body-ReadsBody_example =
    read_body-ReadsBody 9 five (codes "5") split_body five_found (ground arith)
      (ground (arith, five_long)) (ground arith)

-- A response with a cookie.
abbrev reply : Response
reply = record new_response {
  body = codes "done";
  cookies = new_cookie (codes "a") (codes "1") ∷ [];
}

reply-IsSendable : IsSendable (codes "now\n") reply
unfolding date_text
reply-IsSendable = record {
  dated = ground arith;
  typed = ground arith;
  bodied = ground arith;
  cookies = ground arith;
}

reply_short : Takes (response_pieces (codes "now\n") reply) wire.sends
unfolding response_pieces status_pieces sid_pieces cookie_pieces path_pieces date_text print_int
    print_nat get_code_description
reply_short = ground arith

write_response-lines_example :
    (o : Output) × (write_response (codes "now\n") reply wire ≡ wrote o)
    × (o.sent
        ≡ block
            (status_line reply ∷ map field_line (response_fields (codes "now\n") reply))
            (codes "done"))
write_response-lines_example =
    write_response-lines (codes "now\n") reply wire reply-IsSendable reply_short

-- A response that deletes a cookie by giving it no value.
abbrev forgetting : Response
forgetting = record new_response { body = codes "done"; cookies = new_cookie (codes "a") [] ∷ [] }

forgetting_short :
    Takes (pieces_before (codes "now\n") forgetting [] (new_cookie (codes "a") [])) wire.sends
unfolding status_pieces sid_pieces cookie_pieces path_pieces date_text print_int print_nat
    get_code_description
forgetting_short = ground arith

write_response_empty_cookie_example :
    (o : Output) × (write_response (codes "now\n") forgetting wire ≡ threw o)
    × (o.sent ≡ concat (pieces_before (codes "now\n") forgetting [] (new_cookie (codes "a") [])))
unfolding date_text
write_response_empty_cookie_example =
    write_response_empty_cookie (codes "now\n") forgetting wire [] [] (new_cookie (codes "a") [])
      (ground arith) (ground arith) refl tt (ground arith) refl forgetting_short

abbrev pairs : List (Bytes × Bytes)
pairs = (codes "SolusekSID", codes "77") ∷ (codes "lang", codes "en") ∷ []

parse_cookies-text_example :
    parse_cookies (codes "SolusekSID=77; lang=en")
    ≡ some (record {
      cookies =
          new_cookie (codes "SolusekSID") (codes "77")
          ∷ new_cookie (codes "lang") (codes "en")
          ∷ [];
      sid = codes "77";
    })
parse_cookies-text_example =
    parse_cookies-text pairs (ground arith)
      ((ground arith, ground arith, refl, refl), ((ground arith, ground arith, refl, refl), tt))
      (ground arith)

-- A request that tries to leave the static directory.
abbrev climbing : Head
climbing = record {
  method = codes "GET";
  path = codes "/../etc/passwd";
  query = none;
  version = codes "HTTP/1.1";
  fields = [];
}

abbrev climbing_in : Input
climbing_in = record { pending = head_text climbing []; arrivals = [] }

climbing-IsHead : IsHead climbing
climbing-IsHead = record {
  method_word = ground arith;
  path_word = ground arith;
  path_end = ground arith;
  query_word = tt;
  no_colon = ground arith;
  text = ground arith;
  names = tt;
  lines = tt;
}

climbing_dots : find_str (codes "..") climbing.path ≢ none
climbing_dots = ground arith

run_dots_example :
    run 200 2 outside greeting no_log climbing_in wire
    ≡ some (respond outside greeting no_log not_found wire)
unfolding get_endpoint find_endpoint
run_dots_example =
    run_dots 200 1 outside greeting no_log climbing_in wire climbing [] climbing-IsHead
      (ground arith) (λ v e. absurd (ground arith)) refl (ground arith) refl climbing_dots

run-Safe_example : RunKeeps greeting (run 200 2 outside greeting no_log climbing_in wire)
run-Safe_example = run-Safe 200 2 outside greeting no_log climbing_in wire tt
