-- ===== src/Node/Cookies.antt =====
-- The part of `CNode::run` that takes the `Cookie` header apart.
pub mod Parse
use solusek.Base.{
  ℕ, zero, suc, ◌+◌, ◌%◌, Bool, true, false, not, ◌&&◌, List, [], ◌∷◌, ◌++◌, Option, none, some,
  ◌==◌, ltb, if◌then◌else◌, Bytes, codes, str_eq, find, take, drop, length, u32_mod, npos,
  u32_of_pos,
}
use solusek.Model.{Cookie, new_cookie}
use solusek.Text.{trim}

-- What the loop writes of the request.
pub record Jar : Type 0 where
  pub cookies : List Cookie
  pub sid : Bytes

-- `np` is an `unsigned int`, and is compared with the 64-bit `npos`.
unfoldable pub add_cookie : Jar → Bytes → Jar
add_cookie j ck =
    let np = u32_of_pos (find b'=' ck) in
    let cname = take np ck in
    let cval = drop ((np + 1) % u32_mod) ck in
    if np == npos then j else record {
      cookies = j.cookies ++ new_cookie cname cval ∷ [];
      sid = if str_eq cname (codes "SolusekSID") then cval else j.sid;
    }

-- The piece before the next semicolon, and what is left of `deccum` behind it.
next_piece : Bytes → Bytes × Bytes
next_piece deccum =
    let sp = u32_of_pos (find b';' deccum) in
    if not (sp == npos) && ltb sp (length deccum)
    then (take sp deccum, drop (suc sp) deccum)
    else (deccum, [])

-- The rounds of `while (deccum.size() > 0)`; `none` means that the fuel ran out.
unfoldable pub cookie_rounds : ℕ → Bytes → Jar → Option Jar
unfolding add_cookie next_piece
cookie_rounds fuel [] j = some j
cookie_rounds zero (c ∷ s) j = none
cookie_rounds (suc fuel) (c ∷ s) j =
    let (ck, rest) = next_piece (c ∷ s) in cookie_rounds fuel rest (add_cookie j (trim ck))

-- Each round takes a byte at least, so that many rounds are enough.
unfoldable pub parse_cookies : Bytes → Option Jar
unfolding cookie_rounds
parse_cookies val = cookie_rounds (suc (length val)) val (record { cookies = []; sid = [] })
