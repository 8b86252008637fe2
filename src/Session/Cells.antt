-- ===== src/Session/Cells.antt =====
-- The objects of a session.
use solusek.Base.{
  ℕ, zero, suc, ◌<◌, List, [], ◌∷◌, ◌++◌, ◌≡◌, ◌≢◌, refl, sym, ap, arith, Bytes, length, All,
}
use solusek.Model.{VarVal}
use solusek.Session.{cell, store, find_item}

-- Changing an object but not its name leaves every name where it was.
pub cell-store_var :
    (cells : List VarVal) (i k : ℕ) (v : VarVal)
    → (cell cells i).var ≡ v.var
    → (cell (store cells i v) k).var ≡ (cell cells k).var
cell-store_var [] i k v e = refl
cell-store_var (x ∷ xs) zero zero v e = sym e
cell-store_var (x ∷ xs) zero (suc k) v e = refl
cell-store_var (x ∷ xs) (suc i) zero v e = refl
cell-store_var (x ∷ xs) (suc i) (suc k) v e = cell-store_var xs i k v e

pub cell-store_self :
    (cells : List VarVal) (i : ℕ) (v : VarVal) → i < length cells → cell (store cells i v) i ≡ v
cell-store_self [] i v h = elim h [ ]
cell-store_self (x ∷ xs) zero v h = refl
cell-store_self (x ∷ xs) (suc i) v h = cell-store_self xs i v (omega arith)

pub cell-store_ne :
    (cells : List VarVal) (i k : ℕ) (v : VarVal) → i ≢ k → cell (store cells i v) k ≡ cell cells k
cell-store_ne [] i k v h = refl
cell-store_ne (x ∷ xs) zero zero v h = absurd (h refl)
cell-store_ne (x ∷ xs) zero (suc k) v h = refl
cell-store_ne (x ∷ xs) (suc i) zero v h = refl
cell-store_ne (x ∷ xs) (suc i) (suc k) v h = cell-store_ne xs i k v (λ e. h (ap suc e))

pub cell-append :
    (cells more : List VarVal) (k : ℕ) → k < length cells → cell (cells ++ more) k ≡ cell cells k
cell-append [] more k h = elim h [ ]
cell-append (x ∷ xs) more zero h = refl
cell-append (x ∷ xs) more (suc k) h = cell-append xs more k (omega arith)

pub cell_last : (cells : List VarVal) (v : VarVal) → cell (cells ++ v ∷ []) (length cells) ≡ v
cell_last [] v = refl
cell_last (x ∷ xs) v = cell_last xs v

-- Stores that agree on the names of the items find the same.
pub find_item_same :
    (cells cells' : List VarVal) (is : List ℕ) (name : Bytes)
    → All (λ i. (cell cells' i).var ≡ (cell cells i).var) is
    → find_item cells' is name ≡ find_item cells is name
unfolding find_item
find_item_same cells cells' [] name h = refl
find_item_same cells cells' (i ∷ is) name h = rw (h.0, find_item_same cells cells' is name h.1)
