-- ===== src/Socket/Access.antt =====
-- src/handlers/CNetHandler_linux.cpp: the black list and the white list of a listening socket.
pub mod Ranges
use solusek.Base.{
  ℕ, suc, ◌+◌, ◌-◌, ◌%◌, Bool, true, false, not, ◌&&◌, ◌||◌, List, [], ◌∷◌, ◌++◌, Option, none,
  some, ◌==◌, ltb, leb, if◌then◌else◌, Bytes, str_eq, find_last_of, take, drop, length, c_str, ℤ,
  pos, negsuc, u32_mod, npos, u32_of_pos, u32_of_int,
}
use solusek.Decimal.{atoi}

-- `IPAddressItem`
pub record IpAddressItem : Type 0 where
  pub addr : Bytes
  pub from : Bytes
  pub to : Bytes

abbrev pub one_address : Bytes → IpAddressItem
one_address a = record { addr = a; from = []; to = [] }

abbrev pub address_range : Bytes → Bytes → IpAddressItem
address_range f t = record { addr = []; from = f; to = t }

-- `short s = i`, as the number from 0 to 65535 that lies 32768 above it.
abbrev pub short_of_int : ℤ → ℕ
short_of_int i = (u32_of_int i + 32768) % 65536

-- `s.substr(i)`, which throws `out_of_range` behind the end.
abbrev pub substr_from : ℕ → Bytes → Option Bytes
substr_from i s = if ltb (length s) i then none else some (drop i s)

-- The three numbers, and whether the last lies between the others.
unfoldable pub compare_last : Option Bytes → Option Bytes → Option Bytes → Option Bool
compare_last (some f) (some t) (some a) =
    let fromi = short_of_int (atoi (c_str f)) in
    let toi = short_of_int (atoi (c_str t)) in
    let isi = short_of_int (atoi (c_str a)) in some (leb isi toi && leb fromi isi)
compare_last none t a = none
compare_last (some f) none a = none
compare_last (some f) (some t) none = none

-- `isAddrInRange` behind its first line.
unfoldable pub range_at : ℕ → Bytes → Bytes → Bytes → Option Bool
unfolding compare_last
range_at np addr from to =
    let i = (np + 1) % u32_mod in
    if np == npos
    then some false
    else if ltb (length to) np
    then some false
    else if not (str_eq (take np from) (take np addr))
    then some false
    else compare_last (substr_from i from) (substr_from i to) (substr_from i addr)

-- `isAddrInRange`; `none` is the thrown `out_of_range`.
unfoldable pub is_addr_in_range : Bytes → Bytes → Bytes → Option Bool
unfolding range_at
is_addr_in_range addr from to = range_at (u32_of_pos (find_last_of b'.' from)) addr from to

-- `isBlacklisted` and `isWhitelisted`, on the list in question.
unfoldable pub is_listed : Bytes → List IpAddressItem → Option Bool
unfolding is_addr_in_range
is_listed addr [] = some false
is_listed addr (it ∷ items) =
    let rest = is_listed addr items in
    if str_eq it.addr addr then some true else elim (is_addr_in_range addr it.from it.to) [
      | none ↦ none
      | some b ↦ if b then some true else rest
    ]

-- `clearBlacklist` and `clearWhitelist` call `empty()`, which only tests.
unfoldable pub clear_list : List IpAddressItem → List IpAddressItem
clear_list items = items

-- Whether `accept` gives a socket for this address, or 0.
unfoldable pub accepts : Bytes → List IpAddressItem → List IpAddressItem → Option Bool
unfolding is_listed
accepts addr white black = elim (is_listed addr white) [
  | none ↦ none
  | some w ↦
      if w then some true else elim (is_listed addr black) [ none ↦ none | some b ↦ some (not b) ]
]
