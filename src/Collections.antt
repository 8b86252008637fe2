-- ===== src/Collections.antt =====
-- src/server/CFlagCollection.h and CTrustStore.h.
use solusek.Base.{
  ℕ, suc, ◌%◌, Bool, true, false, List, [], ◌∷◌, ◌++◌, ◌≡◌, refl, sym, ap, ◌∙◌, arith, Option, none,
  some, inl, inr, Bool-cases, ◌==◌, if◌then◌else◌, Bytes, str_eq, length, u32_mod,
}

-- `MFlag`
pub record Flag : Type 0 where
  pub flag : ℕ
  pub param : Bytes

unfoldable pub get_flag : List Flag → ℕ → Option Flag
get_flag [] flag_id = none
get_flag (f ∷ fs) flag_id = if f.flag == flag_id then some f else get_flag fs flag_id

unfoldable pub add_flag : List Flag → Flag → List Flag
add_flag flags f = flags ++ f ∷ []

unfoldable pub size : List Flag → ℕ
size flags = length flags % u32_mod

unfoldable pub clear_flags : List Flag → List Flag
clear_flags flags = []

-- `CTrustCert`
pub record TrustCert : Type 0 where
  pub public_key_hex : Bytes
  pub id : ℕ
  pub kind : ℕ

-- `CTrustStore`; `Current` is the place of the certificate it points to.
pub record TrustStore : Type 0 where
  pub certs : List TrustCert
  pub current : Option ℕ

unfoldable pub add_key_ex : TrustStore → TrustCert → TrustStore
add_key_ex s cert = record s { certs = s.certs ++ cert ∷ [] }

unfoldable pub add_key : TrustStore → Bytes → TrustStore
unfolding add_key_ex
add_key s hex = add_key_ex s (record { public_key_hex = hex; id = 0; kind = 0 })

unfoldable pub validate_from : ℕ → List TrustCert → Bytes → Option ℕ
validate_from n [] hex = none
validate_from n (c ∷ cs) hex =
    if str_eq c.public_key_hex hex then some n else validate_from (suc n) cs hex

abbrev mark : TrustStore → Option ℕ → TrustStore × Bool
mark s none = (s, false)
mark s (some n) = (record s { current = some n }, true)

unfoldable pub validate : TrustStore → Bytes → TrustStore × Bool
unfolding validate_from
validate s hex = mark s (validate_from 0 s.certs hex)

-- Whether some certificate has the key.
abbrev pub has_key : List TrustCert → Bytes → Bool
has_key [] hex = false
has_key (c ∷ cs) hex = if str_eq c.public_key_hex hex then true else has_key cs hex

abbrev is_found : Option ℕ → Bool
is_found none = false
is_found (some n) = true

validate_from-has_key :
    (n : ℕ) (cs : List TrustCert) (hex : Bytes) → is_found (validate_from n cs hex) ≡ has_key cs hex
unfolding validate_from
validate_from-has_key n [] hex = refl
validate_from-has_key n (c ∷ cs) hex = elim (Bool-cases (str_eq c.public_key_hex hex)) [
  | inl e ↦ rw e refl
  | inr e ↦ rw e (validate_from-has_key (suc n) cs hex)
]

mark-is_found : (s : TrustStore) (o : Option ℕ) → (mark s o).1 ≡ is_found o
mark-is_found s none = refl
mark-is_found s (some n) = refl

has_key-append :
    (cs : List TrustCert) (c : TrustCert) (hex : Bytes)
    → has_key (cs ++ c ∷ []) hex ≡ (if str_eq c.public_key_hex hex then true else has_key cs hex)
has_key-append [] c hex = refl
has_key-append (d ∷ cs) c hex = ground (arith, has_key-append cs c hex)

-- A key that was added validates, and adding it changes the answer for no other key.
pub validate-add_key :
    (s : TrustStore) (hex h : Bytes)
    → (validate (add_key s hex) h).1 ≡ (if str_eq hex h then true else (validate s h).1)
unfolding validate add_key
validate-add_key s hex h =
    let cert : TrustCert = record { public_key_hex = hex; id = 0; kind = 0 } in
    let before = mark-is_found s (validate_from 0 s.certs h) ∙ validate_from-has_key 0 s.certs h in
    mark-is_found (add_key_ex s cert) (validate_from 0 (s.certs ++ cert ∷ []) h)
    ∙ validate_from-has_key 0 (s.certs ++ cert ∷ []) h
    ∙ has_key-append s.certs cert h
    ∙ ap (λ b. if str_eq hex h then true else b) (sym before)
