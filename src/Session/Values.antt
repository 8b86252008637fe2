-- ===== src/Session/Values.antt =====
-- Reading back what was set.
use solusek.Base.{
  ℕ, zero, suc, ◌≤◌, ◌<◌, true, false, List, [], ◌∷◌, ◌++◌, ◌≡◌, ◌≢◌, refl, sym, ap, ◌∙◌, subst,
  arith, Option, none, some, inl, inr, if◌then◌else◌, Bool-cases, Bytes, str_eq, str_eq_iff, length,
  length-append, All, All-append,
}
use solusek.Model.{VarVal}
use solusek.Session.{
  Session, cell, store, find_item, get, value_at, get_string_value, set_at, set_string_value,
}
use solusek.Session.Cells.{
  cell-store_var, cell-store_self, cell-store_ne, cell-append, cell_last, find_item_same,
}

-- Every pointer is to an object of the session.
abbrev pub IsValid : Session → Type 0
IsValid s = All (λ i. i < length s.cells) s.items

-- A pointer at the end is found if none before it is.
abbrev or_last : List VarVal → Option ℕ → ℕ → Bytes → Option ℕ
or_last cells (some j) i name = some j
or_last cells none i name = if str_eq (cell cells i).var name then some i else none

find_item_last :
    (cells : List VarVal) (is : List ℕ) (i : ℕ) (name : Bytes)
    → find_item cells (is ++ i ∷ []) name ≡ or_last cells (find_item cells is name) i name
unfolding find_item
find_item_last cells [] i name = refl
find_item_last cells (j ∷ is) i name = ground (arith, find_item_last cells is i name)

pub record Found (cells : List VarVal) (is : List ℕ) (name : Bytes) (i : ℕ) : Type 0 where
  pub named : (cell cells i).var ≡ name
  pub inside : All (λ k. k < length cells) is → i < length cells

find_item-Found :
    (cells : List VarVal) (is : List ℕ) (name : Bytes) (i : ℕ)
    → find_item cells is name ≡ some i
    → Found cells is name i
unfolding find_item
find_item-Found cells [] name i e = absurd (cc)
find_item-Found cells (j ∷ is) name i e = elim (Bool-cases (str_eq (cell cells j).var name)) [
  | inl t ↦
      let same : j ≡ i = ground arith in
      record {
        named = ap (λ k. (cell cells k).var) (sym same) ∙ (str_eq_iff (cell cells j).var name).0 t;
        inside = λ h. subst (λ k. k < length cells) same h.0;
      }
  | inr t ↦
      let f = find_item-Found cells is name i (rw (t, find_item) at e) in
      record { named = f.named; inside = λ h. f.inside h.1 }
]

All-grow : (n m : ℕ) (is : List ℕ) → n ≤ m → All (λ i. i < n) is → All (λ i. i < m) is
All-grow n m [] h all = tt
All-grow n m (i ∷ is) h all = (omega arith, All-grow n m is h all.1)

length-store : (cells : List VarVal) (i : ℕ) (v : VarVal) → length (store cells i v) ≡ length cells
length-store [] i v = refl
length-store (x ∷ xs) zero v = refl
length-store (x ∷ xs) (suc i) v = ap suc (length-store xs i v)

set_at-IsValid :
    (s : Session) (o : Option ℕ) (name value : Bytes)
    → ((i : ℕ) → o ≡ some i → i < length s.cells)
    → IsValid s
    → IsValid (set_at s o name value)
unfolding set_at
set_at-IsValid s none name value h v =
    let x : VarVal = record { var = name; val = value } in
    let grown = length-append s.cells (x ∷ []) in
    All-append (λ i. i < length (s.cells ++ x ∷ [])) s.items (length s.cells ∷ [])
      (All-grow (length s.cells) (length (s.cells ++ x ∷ [])) s.items (omega (arith, grown)) v)
      (omega (arith, grown), tt)
set_at-IsValid s (some i) name value h v =
    let x : VarVal = record { var = name; val = value } in
    let kept = length-store s.cells i x in
    All-append (λ k. k < length (store s.cells i x)) s.items (i ∷ [])
      (All-grow (length s.cells) (length (store s.cells i x)) s.items (omega (arith, kept)) v)
      (omega (arith, kept, h i refl), tt)

-- If every pointer of a session is to an object of the session, that stays so under
-- `setStringValue`.
pub set_string_value-IsValid :
    (s : Session) (name value : Bytes) → IsValid s → IsValid (set_string_value s name value)
unfolding set_string_value get
set_string_value-IsValid s name value v =
    set_at-IsValid s (find_item s.cells s.items name) name value
      (λ i e. (find_item-Found s.cells s.items name i e).inside v) v

same_names_store :
    (cells : List VarVal) (is : List ℕ) (i : ℕ) (v : VarVal)
    → (cell cells i).var ≡ v.var
    → All (λ k. (cell (store cells i v) k).var ≡ (cell cells k).var) is
same_names_store cells [] i v e = tt
same_names_store cells (k ∷ is) i v e =
    (cell-store_var cells i k v e, same_names_store cells is i v e)

same_names_append :
    (cells more : List VarVal) (is : List ℕ)
    → All (λ k. k < length cells) is
    → All (λ k. (cell (cells ++ more) k).var ≡ (cell cells k).var) is
same_names_append cells more [] h = tt
same_names_append cells more (k ∷ is) h =
    (ap (λ (v : VarVal). v.var) (cell-append cells more k h.0), same_names_append cells more is h.1)

-- A name that is not found differs from one that is.
names_differ :
    (s : Session) (name m : Bytes) (j : ℕ)
    → get s name ≡ none
    → get s m ≡ some j
    → str_eq name m ≡ false
names_differ s name m j e f = elim (Bool-cases (str_eq name m)) [
  | inl t ↦ absurd (let same = ap (get s) ((str_eq_iff name m).0 t) in cc)
  | inr t ↦ t
]

names_apart :
    (s : Session) (name m : Bytes) (i : ℕ)
    → get s name ≡ some i
    → get s m ≡ none
    → str_eq name m ≡ false
names_apart s name m i e f = elim (Bool-cases (str_eq name m)) [
  | inl t ↦ absurd (let same = ap (get s) ((str_eq_iff name m).0 t) in cc)
  | inr t ↦ t
]

same_place :
    (s : Session) (name m : Bytes) (i j : ℕ)
    → get s name ≡ some i
    → get s m ≡ some j
    → name ≡ m
    → i ≡ j
same_place s name m i j e f same = let h = sym e ∙ ap (get s) same ∙ f in cc

true-ne-false : true ≡ false → ⊥
true-ne-false e = cc

search_new :
    (s : Session) (x : VarVal) (m : Bytes)
    → IsValid s
    → find_item (s.cells ++ x ∷ []) (s.items ++ length s.cells ∷ []) m
      ≡ or_last (s.cells ++ x ∷ []) (find_item s.cells s.items m) (length s.cells) m
search_new s x m v =
    find_item_last (s.cells ++ x ∷ []) s.items (length s.cells) m
    ∙ ap (λ o. or_last (s.cells ++ x ∷ []) o (length s.cells) m)
        (find_item_same s.cells (s.cells ++ x ∷ []) s.items m
          (same_names_append s.cells (x ∷ []) s.items v))

lookup_new :
    (s : Session) (name value m : Bytes) (o : Option ℕ)
    → get s name ≡ none
    → get s m ≡ o
    → IsValid s
    → get_string_value (set_at s none name value) m
      ≡ (if str_eq name m then value else value_at s.cells o)
unfolding get get_string_value set_at
lookup_new s name value m none e f v =
    let x : VarVal = record { var = name; val = value } in
    let last = cell_last s.cells x in
    let found = search_new s x m v ∙ ap (λ o. or_last (s.cells ++ x ∷ []) o (length s.cells) m) f in
    ap (value_at (s.cells ++ x ∷ [])) found ∙ elim (Bool-cases (str_eq name m)) [
      | inl t ↦ rw (last, t) (ap (λ (c : VarVal). c.val) last)
      | inr t ↦ rw (last, t)
    ]
lookup_new s name value m (some j) e f v =
    let x : VarVal = record { var = name; val = value } in
    let found = search_new s x m v ∙ ap (λ o. or_last (s.cells ++ x ∷ []) o (length s.cells) m) f in
    let inside = (find_item-Found s.cells s.items m j f).inside v in
    ap (value_at (s.cells ++ x ∷ [])) found
    ∙ ap (λ (c : VarVal). c.val) (cell-append s.cells (x ∷ []) j inside)
    ∙ rw (names_differ s name m j e f)

search_old :
    (s : Session) (x : VarVal) (i : ℕ) (m : Bytes)
    → (cell s.cells i).var ≡ x.var
    → find_item (store s.cells i x) (s.items ++ i ∷ []) m
      ≡ or_last (store s.cells i x) (find_item s.cells s.items m) i m
search_old s x i m e =
    find_item_last (store s.cells i x) s.items i m
    ∙ ap (λ o. or_last (store s.cells i x) o i m)
        (find_item_same s.cells (store s.cells i x) s.items m
          (same_names_store s.cells s.items i x e))

lookup_old :
    (s : Session) (i : ℕ) (name value m : Bytes) (o : Option ℕ)
    → get s name ≡ some i
    → get s m ≡ o
    → IsValid s
    → get_string_value (set_at s (some i) name value) m
      ≡ (if str_eq name m then value else value_at s.cells o)
unfolding get get_string_value set_at
lookup_old s i name value m none e f v =
    let x : VarVal = record { var = name; val = value } in
    let named = find_item-Found s.cells s.items name i e in
    let self = cell-store_self s.cells i x (named.inside v) in
    let apart = names_apart s name m i e f in
    let found = search_old s x i m named.named ∙ ap (λ o. or_last (store s.cells i x) o i m) f in
    ap (value_at (store s.cells i x)) found ∙ rw (self, apart)
lookup_old s i name value m (some j) e f v =
    let x : VarVal = record { var = name; val = value } in
    let named = find_item-Found s.cells s.items name i e in
    let other = find_item-Found s.cells s.items m j f in
    let found = search_old s x i m named.named ∙ ap (λ o. or_last (store s.cells i x) o i m) f in
    ap (value_at (store s.cells i x)) found ∙ elim (Bool-cases (str_eq name m)) [
      | inl t ↦
          let same : i ≡ j = same_place s name m i j e f ((str_eq_iff name m).0 t) in
          rw t (
            ap (λ k. (cell (store s.cells i x) k).val) (sym same)
            ∙ ap (λ (c : VarVal). c.val) (cell-store_self s.cells i x (named.inside v)))
      | inr t ↦
          let apart : i ≢ j = λ k. true-ne-false (
            sym (
              (str_eq_iff name m).1
                (sym named.named ∙ ap (λ k. (cell s.cells k).var) k ∙ other.named))
            ∙ t) in
          rw t (ap (λ (c : VarVal). c.val) (cell-store_ne s.cells i j x apart))
    ]

set_at_lookup :
    (s : Session) (o : Option ℕ) (name value m : Bytes)
    → get s name ≡ o
    → IsValid s
    → get_string_value (set_at s o name value) m
      ≡ (if str_eq name m then value else get_string_value s m)
set_at_lookup s none name value m e v =
    lookup_new s name value m (get s m) e refl v ∙ (unfold get_string_value in refl)
set_at_lookup s (some i) name value m e v =
    lookup_old s i name value m (get s m) e refl v ∙ (unfold get_string_value in refl)

-- In a session whose pointers are valid, after `setStringValue(name, value)` the name reads as
-- the value, and every other name as before.
pub get_string_value-set :
    (s : Session) (name value m : Bytes)
    → IsValid s
    → get_string_value (set_string_value s name value) m
      ≡ (if str_eq name m then value else get_string_value s m)
unfolding set_string_value
get_string_value-set s name value m v = set_at_lookup s (get s name) name value m refl v
