-- ===== src/Text.antt =====
-- src/util/string_util.cpp: trimming, letter case and replacement. `std::isspace` and `::tolower`
-- are those of the C locale.
pub mod Trim
pub mod Case
pub mod Replace
use solusek.Base.{
  ℕ, zero, suc, ◌+◌, ◌-◌, Bool, true, false, not, ◌&&◌, ◌||◌, List, [], ◌∷◌, ◌++◌, map, reverse,
  Option, none, some, leb, ◌==◌, if◌then◌else◌, Bytes, find_str, take, drop, length, codes,
}

-- `std::isspace`: tab, line feed, vertical tab, form feed, carriage return, blank.
abbrev pub isspace : ℕ → Bool
isspace c = (leb 9 c && leb c 13) || (c == b' ')

-- Erases up to the first byte that is no space.
unfoldable pub ltrim : Bytes → Bytes
ltrim [] = []
ltrim (c ∷ s) = if isspace c then ltrim s else c ∷ s

-- Erases from behind the last byte that is no space: `find_if` from `rbegin`.
unfoldable pub rtrim : Bytes → Bytes
unfolding ltrim
rtrim s = reverse (ltrim (reverse s))

unfoldable pub trim : Bytes → Bytes
unfolding ltrim rtrim
trim s = rtrim (ltrim s)

-- One round of the loop of `strtoupper`. A byte from 128 on is a negative `char`, and no letter.
abbrev pub upper : ℕ → ℕ
upper c = if leb 97 c && leb c 122 then c - 32 else c

unfoldable pub strtoupper : Bytes → Bytes
strtoupper = map upper

-- One round of the loop of `strtolower`, and `::tolower`.
abbrev pub lower : ℕ → ℕ
lower c = if leb 65 c && leb c 90 then c + 32 else c

unfoldable pub strtolower : Bytes → Bytes
strtolower = map lower

-- The rounds of `replaceAll`: `source` is what stands from `lastPos` on, `out` is `newString`.
-- `none` means that the fuel ran out.
unfoldable pub replace_rounds : ℕ → Bytes → Bytes → Bytes → Bytes → Option Bytes
replace_rounds zero source from to out = none
replace_rounds (suc fuel) source from to out = elim (find_str from source) [
  | none ↦ some (out ++ source)
  | some p ↦
      replace_rounds fuel (drop (length from) (drop p source)) from to
        ((out ++ take p source) ++ to)
]

-- Each round with a `from` that is not empty takes a byte, so that many rounds are enough.
unfoldable pub replace_all : Bytes → Bytes → Bytes → Option Bytes
unfolding replace_rounds
replace_all source from to = replace_rounds (suc (length source)) source from to []
