-- ===== src/Client/Url.antt =====
-- `CClient::runRequest` up to the socket: the endpoint taken apart.
pub mod Searches
pub mod Parts
use solusek.Base.{
  ℕ, suc, ◌+◌, Bool, true, false, List, [], ◌∷◌, ◌++◌, Option, none, some, ltb, ◌&&◌, if◌then◌else◌,
  Bytes, codes, str_eq, find, find_str, take, drop, c_str, ℤ, pos,
}
use solusek.Decimal.{atoi}

-- `host`, `port` and `path`; `secure` says that the protocol is https.
pub record Target : Type 0 where
  pub secure : Bool
  pub host : Bytes
  pub port : ℤ
  pub path : Bytes

-- `n1 != npos && n1 < nt`
abbrev pub comes_first : Option ℕ → Option ℕ → Bool
comes_first none nt = false
comes_first (some n) none = true
comes_first (some n) (some m) = ltb n m

-- `host.substr(n1 + 1)`
abbrev pub behind : Option ℕ → Bytes → Bytes
behind none s = s
behind (some n) s = drop (suc n) s

-- The credentials in front of the host are dropped.
unfoldable pub without_credentials : Bytes → Bytes
without_credentials host =
    if comes_first (find b'@' host) (find b'/' host) then behind (find b'@' host) host else host

-- `sport` at its first slash.
unfoldable pub with_port : Bool → Bytes → Bytes → Target
with_port secure host sport = elim (find b'/' sport) [
  | none ↦ record { secure = secure; host = host; port = atoi (c_str sport); path = codes "/" }
  | some n3 ↦ record {
    secure = secure;
    host = host;
    port = atoi (c_str (take n3 sport));
    path = drop n3 sport;
  }
]

abbrev pub default_port : Bool → ℤ
default_port secure = if secure then pos 443 else pos 80

unfoldable pub without_port : Bool → Bytes → Target
without_port secure host = elim (find b'/' host) [
  | none ↦ record { secure = secure; host = host; port = default_port secure; path = codes "/" }
  | some n2 ↦ record {
    secure = secure;
    host = take n2 host;
    port = default_port secure;
    path = drop n2 host;
  }
]

unfoldable pub split_host : Bool → Bytes → Target
unfolding with_port without_port
split_host secure host = elim (find b':' host) [
  | some n2 ↦ with_port secure (take n2 host) (drop (suc n2) host)
  | none ↦ without_port secure host
]

-- `none` is the endpoint with no "://" in it.
unfoldable pub parse_endpoint : Bytes → Option Target
unfolding without_credentials split_host
parse_endpoint endpoint = elim (find_str (codes "://") endpoint) [
  | none ↦ none
  | some n1 ↦ some (
      split_host (str_eq (take n1 endpoint) (codes "https"))
        (without_credentials (drop (n1 + 3) endpoint)))
]
