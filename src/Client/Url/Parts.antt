-- ===== src/Client/Url/Parts.antt =====
-- Endpoints as they are meant.
use solusek.Base.{
  ℕ, suc, ◌+◌, ◌<◌, Bool, [], ◌∷◌, ◌++◌, ◌≡◌, ◌≢◌, refl, sym, ap, subst, ◌∙◌, arith, Option, none,
  some, Bytes, codes, str_eq, find-Lacks, find-append, drop, take-append, drop-append, drop_past,
  append-nil, append_assoc, c_str, c_str-Lacks, ℤ, pos, Lacks, All-append, length,
}
use solusek.Decimal.{atoi, print_nat}
use solusek.Decimal.RoundTrip.{atoi-print_nat, print_nat-Lacks}
use solusek.Client.Url.{
  without_credentials, with_port, without_port, default_port, split_host, parse_endpoint,
}
use solusek.Client.Url.Searches.{IsPath, find_str_word, without_credentials-bare, find_slash}

-- An endpoint: protocol, host, port if there is one, and the path, which starts with a slash or is
-- missing.
pub record Address : Type 0 where
  pub protocol : Bytes
  pub host : Bytes
  pub port : Option ℕ
  pub path : Bytes

-- Where the host or the port ends.
abbrev port_text : Option ℕ → Bytes
port_text none = []
port_text (some n) = b':' ∷ print_nat n

abbrev pub host_text : Address → Bytes
host_text u = u.host ++ (port_text u.port ++ u.path)

abbrev pub endpoint_text : Address → Bytes
endpoint_text u = u.protocol ++ (codes "://" ++ host_text u)

abbrev pub port_or : Bool → Option ℕ → ℤ
port_or secure none = default_port secure
port_or secure (some n) = pos n

abbrev pub path_or : Bytes → Bytes
path_or [] = codes "/"
path_or (c ∷ s) = c ∷ s

abbrev IsPort : Option ℕ → Type 0
IsPort none = Unit
IsPort (some n) = n < 2147483648

-- A colon in the path is taken for the port's, unless there is a port.
abbrev pub IsPortPath : Option ℕ → Bytes → Type 0
IsPortPath none path = Lacks b':' path
IsPortPath (some n) path = Unit

pub record IsAddress (u : Address) : Type 0 where
  pub protocol_word : Lacks b':' u.protocol
  pub host_word : Lacks b':' u.host
  pub host_name : Lacks b'/' u.host
  pub host_bare : Lacks b'@' u.host
  pub path_slash : IsPath u.path
  pub path_word : IsPortPath u.port u.path
  pub small : IsPort u.port

without_port-parts :
    (secure : Bool) (host path : Bytes)
    → Lacks b'/' host
    → IsPath path
    → without_port secure (host ++ path)
      ≡ record { secure = secure; host = host; port = default_port secure; path = path_or path }
unfolding without_port
without_port-parts secure host [] hs h =
    rw (append-nil host) (rw (find-Lacks b'/' host hs, without_port) refl)
without_port-parts secure host (c ∷ t) hs h =
    rw
      (
        find_slash host (c ∷ t) hs h (λ k. cc),
        without_port,
        take-append host (c ∷ t),
        drop-append host (c ∷ t),
      )
      refl

atoi_port : (n : ℕ) → n < 2147483648 → atoi (c_str (print_nat n)) ≡ pos n
atoi_port n small =
    ap (λ (s : Bytes). atoi s)
      (c_str-Lacks (print_nat n) (print_nat-Lacks 0 n refl) ∙ sym (append-nil (print_nat n)))
    ∙ atoi-print_nat n [] small tt

with_port-parts :
    (secure : Bool) (host path : Bytes) (n : ℕ)
    → IsPath path
    → n < 2147483648
    → with_port secure host (print_nat n ++ path)
      ≡ record { secure = secure; host = host; port = pos n; path = path_or path }
unfolding with_port
with_port-parts secure host [] n h small = rw (append-nil (print_nat n)) (
    rw (find-Lacks b'/' (print_nat n) (print_nat-Lacks b'/' n refl), with_port, atoi_port n small)
      refl)
with_port-parts secure host (c ∷ t) n h small =
    rw
      (
        find_slash (print_nat n) (c ∷ t) (print_nat-Lacks b'/' n refl) h (λ k. cc),
        with_port,
        take-append (print_nat n) (c ∷ t),
        drop-append (print_nat n) (c ∷ t),
        atoi_port n small,
      )
      refl

split_host-parts :
    (secure : Bool) (u : Address)
    → IsAddress u
    → split_host secure (host_text u) ≡ record {
      secure = secure;
      host = u.host;
      port = port_or secure u.port;
      path = path_or u.path;
    }
unfolding split_host
split_host-parts secure u h = go u.port h.path_word h.small
  where
    go :
        (port : Option ℕ)
        → IsPortPath port u.path
        → IsPort port
        → split_host secure (u.host ++ (port_text port ++ u.path)) ≡ record {
          secure = secure;
          host = u.host;
          port = port_or secure port;
          path = path_or u.path;
        }
    go none w small =
        rw
          (
            find-Lacks b':' (u.host ++ u.path)
                (All-append (λ c. c ≢ b':') u.host u.path h.host_word w),
            split_host,
          )
          (without_port-parts secure u.host u.path h.host_name h.path_slash)
    go (some n) w small =
        rw
          (
            find-append b':' u.host (print_nat n ++ u.path) h.host_word,
            split_host,
            take-append u.host (b':' ∷ (print_nat n ++ u.path)),
            drop_past u.host b':' (print_nat n ++ u.path),
          )
          (with_port-parts secure u.host u.path n h.path_slash small)

credentials_free : (u : Address) → IsAddress u → without_credentials (host_text u) ≡ host_text u
credentials_free u h = go u.port
  where
    go :
        (port : Option ℕ)
        → without_credentials (u.host ++ (port_text port ++ u.path))
          ≡ u.host ++ (port_text port ++ u.path)
    go none = without_credentials-bare u.host u.path h.host_bare h.host_name h.path_slash
    go (some n) =
        let a = u.host ++ b':' ∷ print_nat n in
        let same = append_assoc u.host (b':' ∷ print_nat n) u.path in
        subst (λ s. without_credentials s ≡ s) same
          (without_credentials-bare a u.path
            (All-append (λ c. c ≢ b'@') u.host (b':' ∷ print_nat n) h.host_bare
              ((λ k. omega arith), print_nat-Lacks b'@' n refl))
            (All-append (λ c. c ≢ b'/') u.host (b':' ∷ print_nat n) h.host_name
              ((λ k. omega arith), print_nat-Lacks b'/' n refl))
            h.path_slash)

drop_three : (p t : Bytes) → drop (length p + 3) (p ++ (codes "://" ++ t)) ≡ t
drop_three [] t = refl
drop_three (x ∷ p) t =
    let e : suc (length p) + 3 ≡ suc (length p + 3) = omega arith in rw e (drop_three p t)

colon_split :
    (secure : Bool) (before q : Bytes)
    → Lacks b':' before
    → Lacks b'/' q
    → split_host secure (before ++ b':' ∷ q)
      ≡ record { secure = secure; host = before; port = atoi (c_str q); path = codes "/" }
unfolding split_host with_port
colon_split secure before q h hq =
    rw
      (
        find-append b':' before q h,
        split_host,
        take-append before (b':' ∷ q),
        drop_past before b':' q,
      )
      (rw (find-Lacks b'/' q hq, with_port) refl)

-- An endpoint written from its parts is taken apart into them, if the protocol holds no colon, the
-- host no colon, slash or at-sign, the path starts with a slash and holds no colon unless a port
-- stands in front of it, and the port is below 2^31: the port is the given one, or the default of
-- the protocol, and a missing path is a slash.
pub parse_endpoint-text :
    (u : Address)
    → IsAddress u
    → let secure = str_eq u.protocol (codes "https") in
      parse_endpoint (endpoint_text u)
      ≡ some (record {
        secure = secure;
        host = u.host;
        port = port_or secure u.port;
        path = path_or u.path;
      })
unfolding parse_endpoint
parse_endpoint-text u h =
    let secure = str_eq u.protocol (codes "https") in
    let rest = codes "://" ++ host_text u in
    rw
      (
        find_str_word b':' (codes "//") u.protocol (host_text u) h.protocol_word,
        parse_endpoint,
        take-append u.protocol rest,
        drop_three u.protocol (host_text u),
        credentials_free u h,
      )
      (ap some (split_host-parts secure u h))

-- For an endpoint with no port, whose path holds a colon with no slash behind it (and with a protocol
-- and a host of no colon, slash or at-sign), that colon is taken for the port's: everything in front
-- of it is the host, the path is a slash, and the port is the number that `atoi` finds behind it.
pub parse_endpoint_colon :
    (protocol host p q : Bytes)
    → Lacks b':' protocol
    → Lacks b':' host
    → Lacks b'@' host
    → Lacks b'/' host
    → Lacks b':' p
    → Lacks b'/' q
    → parse_endpoint (protocol ++ (codes "://" ++ (host ++ (b'/' ∷ (p ++ b':' ∷ q)))))
      ≡ some (record {
        secure = str_eq protocol (codes "https");
        host = host ++ b'/' ∷ p;
        port = atoi (c_str q);
        path = codes "/";
      })
unfolding parse_endpoint
parse_endpoint_colon protocol host p q hp hh ha hs hc hq =
    let path = b'/' ∷ (p ++ b':' ∷ q) in
    let rest = codes "://" ++ (host ++ path) in
    let before = host ++ b'/' ∷ p in
    let same = append_assoc host (b'/' ∷ p) (b':' ∷ q) in
    let clean : Lacks b':' before =
      All-append (λ c. c ≢ b':') host (b'/' ∷ p) hh ((λ k. omega arith), hc) in
    rw
      (
        find_str_word b':' (codes "//") protocol (host ++ path) hp,
        parse_endpoint,
        take-append protocol rest,
        drop_three protocol (host ++ path),
        without_credentials-bare host path ha hs refl,
      )
      (ap (λ s. some (split_host (str_eq protocol (codes "https")) s)) (sym same)
        ∙ ap some (colon_split (str_eq protocol (codes "https")) before q clean hq))
