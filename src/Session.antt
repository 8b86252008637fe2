-- ===== src/Session.antt =====
-- src/server/CSession.cpp. A session holds pointers: `cells` are the `CVarVal` objects that it has
-- allocated, by their address, and `items` is the vector of pointers.
pub mod Cells
pub mod Values
pub mod Aliasing
pub mod Refines
use solusek.Base.{
  ℕ, zero, suc, ◌+◌, ◌-◌, ◌%◌, Bool, true, false, List, [], ◌∷◌, ◌++◌, Option, none, some, leb,
  ◌==◌, if◌then◌else◌, Bytes, str_eq, length,
}
use solusek.Decimal.{print_nat}
use solusek.Model.{VarVal}

pub record Session : Type 0 where
  pub id : Bytes
  pub cells : List VarVal
  pub items : List ℕ

-- The constructor: the session and the next value of `Incremental`.
unfoldable pub new_session : ℕ → ℕ → Session × ℕ
new_session now incremental =
    let i = if leb 4294967295 incremental then 0 else incremental in
    (record { id = print_nat now ++ print_nat i; cells = []; items = [] }, suc i)

abbrev pub no_cell : VarVal
no_cell = record { var = []; val = [] }

-- What a pointer points to.
abbrev pub cell : List VarVal → ℕ → VarVal
cell [] i = no_cell
cell (x ∷ xs) zero = x
cell (x ∷ xs) (suc i) = cell xs i

abbrev pub store : List VarVal → ℕ → VarVal → List VarVal
store [] i v = []
store (x ∷ xs) zero v = v ∷ xs
store (x ∷ xs) (suc i) v = x ∷ store xs i v

unfoldable pub find_item : List VarVal → List ℕ → Bytes → Option ℕ
find_item cells [] name = none
find_item cells (i ∷ is) name =
    if str_eq (cell cells i).var name then some i else find_item cells is name

-- `get`: the pointer to the first item of that name.
unfoldable pub get : Session → Bytes → Option ℕ
unfolding find_item
get s name = find_item s.cells s.items name

value_at : List VarVal → Option ℕ → Bytes
value_at cells none = []
value_at cells (some i) = (cell cells i).val

unfoldable pub get_string_value : Session → Bytes → Bytes
unfolding value_at
get_string_value s name = value_at s.cells (get s name)

set_at : Session → Option ℕ → Bytes → Bytes → Session
set_at s none name value = record s {
  cells = s.cells ++ record { var = name; val = value } ∷ [];
  items = s.items ++ length s.cells ∷ [];
}
set_at s (some i) name value = record s {
  cells = store s.cells i (record { var = name; val = value });
  items = s.items ++ i ∷ [];
}

-- `setStringValue`: `Items.push_back(vv)` also for a pointer that is in the vector already.
unfoldable pub set_string_value : Session → Bytes → Bytes → Session
unfolding set_at
set_string_value s name value = set_at s (get s name) name value

unfoldable pub freed_before : ℕ → List ℕ → Bool
freed_before i [] = false
freed_before i (j ∷ js) = if i == j then true else freed_before i js

-- `delete` on each item in turn; `none` if an object is deleted a second time.
unfoldable pub delete_items : List ℕ → List ℕ → Option (List ℕ)
unfolding freed_before
delete_items freed [] = some freed
delete_items freed (i ∷ is) = elim (freed_before i freed) [
  | true ↦ none
  | false ↦ delete_items (i ∷ freed) is
]

-- The destructor.
unfoldable pub destroy : Session → Option (List ℕ)
unfolding delete_items
destroy s = delete_items [] s.items
