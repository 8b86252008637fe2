-- ===== src/StringMap.antt =====
-- `std::map<std::string, std::string>`: the entries in the order of their keys.
pub mod Laws
use solusek.Base.{
  ℕ, Bool, true, false, List, [], ◌∷◌, Option, none, some, ltb, if◌then◌else◌, Bytes, str_eq,
}

abbrev pub StringMap : Type 0
StringMap = List (Bytes × Bytes)

-- `<` of `std::string`.
abbrev pub bytes_lt : Bytes → Bytes → Bool
bytes_lt [] [] = false
bytes_lt [] (y ∷ ys) = true
bytes_lt (x ∷ xs) [] = false
bytes_lt (x ∷ xs) (y ∷ ys) = if ltb x y then true else if ltb y x then false else bytes_lt xs ys

-- `m[k] = v`
unfoldable pub map_set : Bytes → Bytes → StringMap → StringMap
map_set k v [] = (k, v) ∷ []
map_set k v ((j, w) ∷ m) =
    if str_eq k j
    then (k, v) ∷ m
    else if bytes_lt k j
    then (k, v) ∷ (j, w) ∷ m
    else (j, w) ∷ map_set k v m

-- `m.erase(k)`
unfoldable pub map_erase : Bytes → StringMap → StringMap
map_erase k [] = []
map_erase k ((j, w) ∷ m) = if str_eq k j then m else (j, w) ∷ map_erase k m

unfoldable pub map_get : Bytes → StringMap → Option Bytes
map_get k [] = none
map_get k ((j, w) ∷ m) = if str_eq k j then some w else map_get k m

-- `m[k]` of a key that may be missing.
unfoldable pub map_at : Bytes → StringMap → Bytes
map_at k [] = []
map_at k ((j, w) ∷ m) = if str_eq k j then w else map_at k m
