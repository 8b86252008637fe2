-- ===== src/Session/Aliasing.antt =====
-- The destructor, and what setting a name a second time does to it.
use solusek.Base.{
  ℕ, true, List, [], ◌∷◌, ◌++◌, ◌≡◌, ap, ◌∙◌, arith, none, some, inl, inr, Bool-cases, Bytes,
  str_eq,
}
use solusek.Model.{VarVal}
use solusek.Session.{
  Session, cell, find_item, get, set_at, set_string_value, freed_before, delete_items, destroy,
}

freed_before-cons :
    (i j : ℕ) (js : List ℕ) → freed_before i js ≡ true → freed_before i (j ∷ js) ≡ true
unfolding freed_before
freed_before-cons i j js h = ground arith

-- An object that is already freed makes every later delete of it fail.
delete_items_freed :
    (freed is : List ℕ) (i : ℕ)
    → freed_before i freed ≡ true
    → delete_items freed (is ++ i ∷ []) ≡ none
unfolding delete_items
delete_items_freed freed [] i h = rw (h, delete_items)
delete_items_freed freed (j ∷ is) i h = elim (Bool-cases (freed_before j freed)) [
  | inl e ↦ rw (e, delete_items)
  | inr e ↦
      rw (e, delete_items) (delete_items_freed (j ∷ freed) is i (freed_before-cons i j freed h))
]

-- A pointer of the vector that is pushed once more is deleted twice.
delete_items_twice :
    (cells : List VarVal) (freed is : List ℕ) (name : Bytes) (i : ℕ)
    → find_item cells is name ≡ some i
    → delete_items freed (is ++ i ∷ []) ≡ none
unfolding find_item delete_items
delete_items_twice cells freed [] name i e = absurd (cc)
delete_items_twice cells freed (j ∷ is) name i e = elim (Bool-cases (freed_before j freed)) [
  | inl f ↦ rw (f, delete_items)
  | inr f ↦
      rw (f, delete_items)
        (elim (Bool-cases (str_eq (cell cells j).var name)) [
          | inl t ↦
              let same : j ≡ i = ground arith in
              delete_items_freed (j ∷ freed) is i (unfold freed_before in ground arith)
          | inr t ↦ delete_items_twice cells (j ∷ freed) is name i (rw (t, find_item) at e)
        ])
]

-- Setting a name that the session has already makes its destructor delete one object twice,
-- whatever the session held before.
pub set_twice_double_delete :
    (s : Session) (name value : Bytes) (i : ℕ)
    → get s name ≡ some i
    → destroy (set_string_value s name value) ≡ none
unfolding destroy set_string_value set_at get
set_twice_double_delete s name value i e =
    ap (λ o. delete_items [] (set_at s o name value).items) e
    ∙ delete_items_twice s.cells [] s.items name i e
