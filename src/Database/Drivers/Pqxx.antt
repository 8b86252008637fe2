-- ===== src/Database/Drivers/Pqxx.antt =====
-- src/handlers/CDatabaseHandler_pqxx.cpp. A call of the library that throws gives the text of the
-- exception.
use solusek.Base.{
  ℕ, Bool, true, false, List, [], ◌∷◌, ◌++◌, ◌⊎◌, inl, inr, Option, none, some, Bytes, codes, c_str,
  ℤ, pos, negsuc,
}
use solusek.Database.Transaction.{Row, Resource}
use solusek.Database.Drivers.{Table, failed_resource, resource_of, set_data}

-- The library: the connection, and the `n`-th statement of a transaction.
pub record Library : Type 0 where
  pub connection : Bytes → Bool
  pub exec : ℕ → Bytes → Bytes ⊎ Table
  -- The exception, if there is one.
  pub commit : ℕ → Option Bytes
  pub esc : Bytes → Bytes

-- `CDatabaseHandler`: whether `C` is set.
pub record Handler : Type 0 where
  pub connection_string : Bytes
  pub connected : Bool

unfoldable pub open_pqxx : Library → Handler → Handler × Bool
open_pqxx l h =
    let made = l.connection (c_str h.connection_string) in
    elim made [ true ↦ (record h { connected = true }, true) | false ↦ (h, false) ]

unfoldable pub close_pqxx : Handler → Handler
close_pqxx h = record h { connected = false }

unfoldable pub pqxx_exec : Library → ℕ → Bytes → ℤ
pqxx_exec l n s = elim (l.exec n s) [ inl e ↦ negsuc 0 | inr t ↦ pos 0 ]

-- `rs[0][0].as<std::string>()`: with no row the read is undefined, and of NULL it throws `null_text`.
abbrev pub first_id : Bytes → List (List (Option Bytes)) → Option (Bytes ⊎ Bytes)
first_id null_text [] = none
first_id null_text ([] ∷ rows) = none
first_id null_text ((none ∷ row) ∷ rows) = some (inl null_text)
first_id null_text ((some id ∷ row) ∷ rows) = some (inr id)

abbrev pub resource_or_error : Bytes ⊎ Bytes → Resource
resource_or_error (inl e) = failed_resource (c_str e)
resource_or_error (inr id) = resource_of id

unfoldable pub pqxx_insert : Library → Bytes → ℕ → Bytes → Bytes → Option Resource
pqxx_insert l null_text n s id_field = elim (l.exec n ((s ++ codes " RETURNING ") ++ id_field)) [
  | inl e ↦ some (failed_resource (c_str e))
  | inr t ↦ elim (first_id null_text t.cells) [ none ↦ none | some r ↦ some (resource_or_error r) ]
]

-- `row[n].c_str()`, which is the empty text for NULL.
abbrev pub field_text : Option Bytes → Bytes
field_text none = []
field_text (some s) = c_str s

-- The loop over the fields of a row, `row.size()` of them.
unfoldable pub pqxx_row : List (Option Bytes) → Row
pqxx_row [] = []
pqxx_row (c ∷ row) = field_text c ∷ pqxx_row row

-- The loop over the rows: what the callback is given.
unfoldable pub pqxx_rows : List (List (Option Bytes)) → List Row
unfolding pqxx_row
pqxx_rows [] = []
pqxx_rows (row ∷ rows) = pqxx_row row ∷ pqxx_rows rows

unfoldable pub pqxx_query : Library → ℕ → Bytes → Bool × List Row
unfolding pqxx_rows
pqxx_query l n s = elim (l.exec n s) [ inl e ↦ (false, []) | inr t ↦ (true, pqxx_rows t.cells) ]

-- `result[0]` of a row, which is out of bounds with no column.
abbrev pub first_result : List Row → Option Resource
first_result [] = some (resource_of [])
first_result ([] ∷ rows) = none
first_result ((id ∷ row) ∷ rows) = some (set_data ((id ∷ row) ∷ []) (resource_of id))

unfoldable pub pqxx_query_one : Library → ℕ → Bytes → Option Resource
unfolding pqxx_rows
pqxx_query_one l n s = elim (l.exec n s) [
  | inl e ↦ some (failed_resource (c_str e))
  | inr t ↦ first_result (pqxx_rows t.cells)
]
