-- ===== src/Model.antt =====
-- The data classes of include/solusek (MCookie.h, MRequest.h, MResponse.h, MErrorResponse.h,
-- MEndpoint.h, MStaticEndpoint.h, MMimeType.h) and server/CVarVal.h.
use solusek.Base.{
  ℕ, Bool, true, false, List, [], ◌∷◌, ◌++◌, Option, none, some, if◌then◌else◌, Bytes, codes,
  str_eq, is_empty, ℤ, pos, negsuc, ◌==◌,
}
use solusek.Decimal.{print_int}
use solusek.Text.{replace_all}

pub record VarVal : Type 0 where
  pub var : Bytes
  pub val : Bytes

pub record Cookie : Type 0 where
  pub name : Bytes
  pub value : Bytes
  pub path : Bytes
  pub is_none : Bool

-- `MCookie(name, value)`
abbrev pub new_cookie : Bytes → Bytes → Cookie
new_cookie n v = record { name = n; value = v; path = []; is_none = false }

-- `MCookie(true)`
abbrev pub no_cookie : Cookie
no_cookie = record { name = []; value = []; path = []; is_none = true }

pub record Request : Type 0 where
  pub cookies : List Cookie
  pub body : Bytes
  pub host : Bytes
  pub sid : Bytes
  pub query_string : Bytes
  pub ssl_client_cn : Bytes

unfoldable pub find_cookie : Bytes → List Cookie → Cookie
find_cookie n [] = no_cookie
find_cookie n (c ∷ cs) = if str_eq c.name n then c else find_cookie n cs

-- `MRequest::getCookie`
unfoldable pub get_cookie : Request → Bytes → Cookie
unfolding find_cookie
get_cookie r n = find_cookie n r.cookies

pub record Response : Type 0 where
  pub code : ℤ
  pub body : Bytes
  pub content_type : Bytes
  pub date : Bytes
  pub sid : Bytes
  pub location : Bytes
  pub cookies : List Cookie

-- `MResponse()`
abbrev pub new_response : Response
new_response = record {
  code = pos 200;
  body = [];
  content_type = codes "application/json";
  date = [];
  sid = [];
  location = [];
  cookies = [];
}

-- `MResponse::getCodeDescription`
unfoldable pub get_code_description : ℤ → Bytes
get_code_description (pos n) =
    if n == 200
    then codes "OK"
    else if n == 404
    then codes "Not Found"
    else if n == 400
    then codes "Bad Request"
    else codes "Unknown"
get_code_description (negsuc n) = codes "Unknown"

-- `MErrorResponse`; `none` if `replaceAll` ran out of fuel.
unfoldable pub error_response : ℤ → Bytes → Option Response
unfolding print_int replace_all
error_response c msg = elim (replace_all msg (codes "\"") (codes "\\\"")) [
  | none ↦ none
  | some m ↦ some (record new_response {
    code = c;
    body =
        codes "{ \"code\": \""
        ++ (print_int c ++ (codes "\", \"message\": \"" ++ (m ++ codes "\" }")));
  })
]

pub record Endpoint : Type 0 where
  pub kind : ℕ
  pub path : Bytes
  pub method : Bytes
  pub contents : Bytes
  pub ext : Bytes
  pub content_type : Bytes
  pub date : Bytes
  -- The function pointer `Callback`; what it does is a parameter of `Node.Run`.
  pub callback : ℕ

-- `MEndpoint(path, callback, method)`
abbrev pub new_endpoint : Bytes → ℕ → Bytes → Endpoint
new_endpoint p f m = record {
  kind = 0;
  path = p;
  method = m;
  contents = [];
  ext = [];
  content_type = codes "application/json";
  date = [];
  callback = f;
}

pub record StaticEndpoint : Type 0 where
  pub host : Bytes
  pub path : Bytes

pub record MimeType : Type 0 where
  pub ext : Bytes
  pub kind : Bytes
  pub is_text : Bool

-- `MMimeType(ext, isText, type)`
abbrev pub new_mime_type : Bytes → Bool → Bytes → MimeType
new_mime_type e text t = record {
  ext = e;
  kind = if is_empty t then if text then codes "text/" ++ e else codes "application/" ++ e else t;
  is_text = text;
}
