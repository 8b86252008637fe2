-- ===== src/StringMap/Laws.antt =====
-- The map as a function of its keys, and the order of its entries.
use solusek.Base.{
  true, false, [], ◌∷◌, none, some, ◌≡◌, refl, arith, if◌then◌else◌, Bytes, str_eq, str_eq_iff, All,
  Bool-cases, inl, inr,
}
use solusek.StringMap.{StringMap, bytes_lt, map_set, map_erase, map_get, map_at}

pub map_at-set :
    (j k v : Bytes) (m : StringMap)
    → map_at j (map_set k v m) ≡ (if str_eq k j then v else map_at j m)
unfolding map_at map_set
map_at-set j k v [] = ground (arith, str_eq_iff k j, str_eq_iff j k)
map_at-set j k v ((i, w) ∷ m) =
    ground
      (arith, str_eq_iff k j, str_eq_iff j k, str_eq_iff k i, str_eq_iff j i, map_at-set j k v m)

pub map_get-set :
    (j k v : Bytes) (m : StringMap)
    → map_get j (map_set k v m) ≡ (if str_eq k j then some v else map_get j m)
unfolding map_get map_set
map_get-set j k v [] = ground (arith, str_eq_iff k j, str_eq_iff j k)
map_get-set j k v ((i, w) ∷ m) =
    ground
      (arith, str_eq_iff k j, str_eq_iff j k, str_eq_iff k i, str_eq_iff j i, map_get-set j k v m)

bytes_lt_irrefl : (a : Bytes) → bytes_lt a a ≡ false
bytes_lt_irrefl [] = refl
bytes_lt_irrefl (x ∷ a) = ground (arith, bytes_lt_irrefl a)

bytes_lt_trans : (a b c : Bytes) → bytes_lt a b ≡ true → bytes_lt b c ≡ true → bytes_lt a c ≡ true
bytes_lt_trans [] [] c h k = absurd (cc)
bytes_lt_trans [] (y ∷ b) [] h k = absurd (cc)
bytes_lt_trans [] (y ∷ b) (z ∷ c) h k = refl
bytes_lt_trans (x ∷ a) [] c h k = absurd (cc)
bytes_lt_trans (x ∷ a) (y ∷ b) [] h k = absurd (cc)
bytes_lt_trans (x ∷ a) (y ∷ b) (z ∷ c) h k = ground (arith, bytes_lt_trans a b c)

bytes_lt_total : (a b : Bytes) → bytes_lt a b ≡ false → str_eq a b ≡ false → bytes_lt b a ≡ true
bytes_lt_total [] [] h k = absurd (cc)
bytes_lt_total [] (y ∷ b) h k = absurd (cc)
bytes_lt_total (x ∷ a) [] h k = refl
bytes_lt_total (x ∷ a) (y ∷ b) h k = ground (arith, bytes_lt_total a b)

-- The keys rise.
abbrev pub IsOrdered : StringMap → Type 0
IsOrdered [] = Unit
IsOrdered ((k, v) ∷ m) = All (λ (e : Bytes × Bytes). bytes_lt k e.0 ≡ true) m × IsOrdered m

All-above :
    (k j : Bytes) (m : StringMap)
    → bytes_lt k j ≡ true
    → All (λ (e : Bytes × Bytes). bytes_lt j e.0 ≡ true) m
    → All (λ (e : Bytes × Bytes). bytes_lt k e.0 ≡ true) m
All-above k j [] h a = tt
All-above k j (e ∷ m) h a = (bytes_lt_trans k j e.0 h a.0, All-above k j m h a.1)

module _ (P : Bytes → Type 0) where
  abbrev Keys : StringMap → Type 0
  Keys m = All (λ (e : Bytes × Bytes). P e.0) m

  map_set-All : (k v : Bytes) (m : StringMap) → P k → Keys m → Keys (map_set k v m)
  unfolding map_set
  map_set-All k v [] p h = (p, tt)
  map_set-All k v ((j, w) ∷ m) p h = elim (Bool-cases (str_eq k j)) [
    | inl e ↦ rw e (p, h.1)
    | inr e ↦ elim (Bool-cases (bytes_lt k j)) [
      | inl f ↦ rw (e, f) (p, h)
      | inr f ↦ rw (e, f) (h.0, map_set-All k v m p h.1)
    ]
  ]

  map_erase-All : (k : Bytes) (m : StringMap) → Keys m → Keys (map_erase k m)
  unfolding map_erase
  map_erase-All k [] h = tt
  map_erase-All k ((j, w) ∷ m) h = elim (Bool-cases (str_eq k j)) [
    | inl e ↦ rw e h.1
    | inr e ↦ rw e (h.0, map_erase-All k m h.1)
  ]

pub map_set-IsOrdered : (k v : Bytes) (m : StringMap) → IsOrdered m → IsOrdered (map_set k v m)
unfolding map_set
map_set-IsOrdered k v [] h = (tt, tt)
map_set-IsOrdered k v ((j, w) ∷ m) h = elim (Bool-cases (str_eq k j)) [
  | inl e ↦ let same : k ≡ j = (str_eq_iff k j).0 e in rw e (rw same h)
  | inr e ↦ elim (Bool-cases (bytes_lt k j)) [
    | inl f ↦ rw (e, f) ((f, All-above k j m f h.0), h)
    | inr f ↦
        rw (e, f)
          (
            map_set-All (λ i. bytes_lt j i ≡ true) k v m (bytes_lt_total k j f e) h.0,
            map_set-IsOrdered k v m h.1,
          )
  ]
]

pub map_erase-IsOrdered : (k : Bytes) (m : StringMap) → IsOrdered m → IsOrdered (map_erase k m)
unfolding map_erase
map_erase-IsOrdered k [] h = tt
map_erase-IsOrdered k ((j, w) ∷ m) h = elim (Bool-cases (str_eq k j)) [
  | inl e ↦ rw e h.1
  | inr e ↦ rw e (map_erase-All (λ i. bytes_lt j i ≡ true) k m h.0, map_erase-IsOrdered k m h.1)
]

map_get_above :
    (k : Bytes) (m : StringMap)
    → All (λ (e : Bytes × Bytes). bytes_lt k e.0 ≡ true) m
    → map_get k m ≡ none
unfolding map_get
map_get_above k [] h = refl
map_get_above k ((j, w) ∷ m) h =
    let differ : str_eq k j ≡ false = ground (arith, str_eq_iff k j, bytes_lt_irrefl k, h.0) in
    rw differ (map_get_above k m h.1)

pub map_get-erase :
    (j k : Bytes) (m : StringMap)
    → IsOrdered m
    → map_get j (map_erase k m) ≡ (if str_eq k j then none else map_get j m)
unfolding map_get map_erase
map_get-erase j k [] h = ground arith
map_get-erase j k ((i, w) ∷ m) h = ground (
  arith,
  str_eq_iff k j,
  str_eq_iff j k,
  str_eq_iff k i,
  str_eq_iff j i,
  map_get-erase j k m h.1,
  map_get_above i m h.0,
)
