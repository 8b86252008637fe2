-- ===== src/Server/Static.antt =====
-- `CServer::getStaticEndpoint` and `CServer::getStaticIndex`.
pub mod Ends
pub mod Safe
pub mod Found
use solusek.Base.{
  ℕ, zero, suc, ◌+◌, ◌-◌, ◌%◌, Bool, true, false, not, ◌&&◌, ◌||◌, List, [], ◌∷◌, ◌++◌, Option,
  none, some, ◌==◌, leb, if◌then◌else◌, Bytes, codes, str_eq, find, find_last_of, find_str,
  last_byte, is_empty, take, drop, length, u32_mod, npos, u32_of_pos,
}
use solusek.Model.{Endpoint, StaticEndpoint, MimeType}
use solusek.Text.{strtolower}
use solusek.Files.{Disk, Log, fopen, fclose, read_text_file, read_binary_file}
use solusek.Server.{Server, get_mime_type}

-- The test of one directory against the host in lower case.
abbrev pub host_fits : StaticEndpoint → Bytes → Bool
host_fits ep shost =
    if is_empty ep.host
    then true
    else leb (length ep.host) (length shost)
      && str_eq (drop (length shost - length ep.host) shost) ep.host

-- The path of the first directory that fits, or the empty string.
unfoldable pub choose_directory : List StaticEndpoint → Bytes → Bytes
choose_directory [] shost = []
choose_directory (ep ∷ eps) shost =
    if host_fits ep shost then ep.path else choose_directory eps shost

abbrev pub host_text : Option Bytes → Bytes
host_text none = []
host_text (some h) = strtolower h

static_result : Disk → Bytes → Bytes → Bytes → Bytes → Bytes → Endpoint
static_result d dpath method ext contents content_type = record {
  kind = 1;
  path = dpath;
  method = method;
  contents = contents;
  ext = ext;
  content_type = content_type;
  date = d.mod_time dpath;
  callback = 0;
}

-- The result of a search: an endpoint or none, and the log; `no_fuel` if the fuel ran out.
pub data Search : Type 0 where
  no_fuel : Search
  answer : Option Endpoint → Log → Search

binary_answer : Disk → Bytes → Bytes → Bytes → Bytes → Option Bytes × Log → Search
unfolding static_result
binary_answer d dpath method ext content_type (none, l) = no_fuel
binary_answer d dpath method ext content_type (some bytes, l) =
    answer (some (static_result d dpath method ext bytes content_type)) l

-- The branches on the type: text, binary, or no type at all.
serve_type : Option MimeType → Disk → Bytes → Bytes → Bytes → Log → Search
unfolding binary_answer static_result
serve_type (some mime) d dpath method ext l =
    if mime.is_text
    then (let (text, l') = read_text_file d dpath l in
        answer (some (static_result d dpath method ext text mime.kind)) l')
    else binary_answer d dpath method ext mime.kind (read_binary_file d dpath l)
serve_type none d dpath method ext l =
    binary_answer d dpath method ext (codes "application/force-download")
      (read_binary_file d dpath l)

-- `fopen` and `fclose` to see whether the file is there.
probe : Option Bytes × Log → Option MimeType → Disk → Bytes → Bytes → Bytes → Search
unfolding serve_type
probe (none, l) mime d dpath method ext = answer none l
probe (some content, l) mime d dpath method ext = serve_type mime d dpath method ext (fclose l)

-- `unsigned int np` is compared with the 64-bit `npos`, and `np + 1` is computed in 32 bits.
abbrev pub before_pos : Option ℕ → Bytes → Bytes
before_pos o s = take (u32_of_pos o) s

abbrev pub after_pos : Option ℕ → Bytes → Bytes
after_pos o s = drop ((u32_of_pos o + 1) % u32_mod) s

abbrev pub is_npos : Option ℕ → Bool
is_npos o = u32_of_pos o == npos

-- From the file name on: `dpath` is the path on disk.
unfoldable pub serve_name : Server → Disk → Bytes → Bytes → Bytes → Log → Search
unfolding probe
serve_name s d dpath fname method l =
    if is_npos (find_last_of b'.' fname)
    then answer none l
    else (let ext = strtolower (after_pos (find_last_of b'.' fname) fname) in
        probe (fopen d dpath l) (get_mime_type s ext) d dpath method ext)

-- From the choice of the directory on.
unfoldable pub serve_file : Server → Disk → Bytes → Bytes → Option Bytes → Log → Search
unfolding serve_name
serve_file s d fpath method host l =
    let static_path = choose_directory s.static_endpoints (host_text host) in
    let bare = if is_npos (find b'?' fpath) then fpath else before_pos (find b'?' fpath) fpath in
    if is_empty static_path
    then answer none l
    else if is_npos (find_last_of b'/' bare)
    then answer none l
    else serve_name s d (static_path ++ (b'/' ∷ bare)) (after_pos (find_last_of b'/' bare) bare)
        method l

abbrev is_none {ℓ} : {A : Type ℓ} → Option A → Bool
is_none none = true
is_none (some a) = false

-- The loop of `getStaticIndex` over the index names, with `search` for `getStaticEndpoint`.
index_loop : (Bytes → Log → Search) → ℕ → List Bytes → Bytes → Log → Search
index_loop search stray [] dpath l = answer none l
index_loop search stray (name ∷ names) dpath l = elim (last_byte stray name == b'/') [
  | true ↦ index_loop search stray names dpath l
  | false ↦ elim (search (dpath ++ name) l) [
    | no_fuel ↦ no_fuel
    | answer found l' ↦ elim found [
      | some e ↦ answer (some e) l'
      | none ↦ index_loop search stray names dpath l'
    ]
  ]
]

-- `getStaticEndpoint`, with fuel for its recursion through `getStaticIndex`. The byte `stray` is
-- what `s[s.size() - 1]` reads for an empty `s`.
unfoldable pub get_static_endpoint :
    ℕ → Server → Disk → ℕ → Bytes → Option Bytes → Bytes → Log → Search
unfolding index_loop serve_file
get_static_endpoint zero s d stray method host path l = no_fuel
get_static_endpoint (suc fuel) s d stray method host path l =
    let index =
      index_loop (get_static_endpoint fuel s d stray method host) stray s.static_indexes path l in
    if not (is_none (find_str (codes "..") path))
    then answer none l
    else if last_byte stray path == b'/'
    then index
    else serve_file s d path method host l
