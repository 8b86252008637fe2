-- ===== src/Session/Refines.antt =====
-- A session as what it promises: a map from names to values.
use mathlib.Core.Path.{fun_ext}
use solusek.Base.{ℕ, List, [], ◌∷◌, ◌≡◌, refl, ap, ◌∙◌, Bytes, str_eq, if◌then◌else◌}
use solusek.Session.{
  Session, new_session, get_string_value, set_string_value, get, find_item, value_at,
}
use solusek.Session.Values.{IsValid, set_string_value-IsValid, get_string_value-set}

-- The specification: every name has a value, at first the empty one.
abbrev pub Names : Type 0
Names = Bytes → Bytes

abbrev pub no_names : Names
no_names name = []

abbrev pub update : Bytes → Bytes → Names → Names
update name value f m = if str_eq name m then value else f m

abbrev pub updates : List (Bytes × Bytes) → Names → Names
updates [] f = f
updates ((name, value) ∷ calls) f = updates calls (update name value f)

-- The calls of `setStringValue`, in order.
abbrev pub set_all : List (Bytes × Bytes) → Session → Session
set_all [] s = s
set_all ((name, value) ∷ calls) s = set_all calls (set_string_value s name value)

-- The session stands for the map: its pointers are valid, and `getStringValue` is the map.
pub record Refines (s : Session) (f : Names) : Type 0 where
  pub valid : IsValid s
  pub reads : get_string_value s ≡ f

new_session-Refines : (now incremental : ℕ) → Refines (new_session now incremental).0 no_names
unfolding new_session get_string_value get find_item value_at
new_session-Refines now incremental = record { valid = tt; reads = fun_ext (λ m. refl) }

set_string_value-Refines :
    (s : Session) (f : Names) (name value : Bytes)
    → Refines s f
    → Refines (set_string_value s name value) (update name value f)
set_string_value-Refines s f name value r = record {
  valid = set_string_value-IsValid s name value r.valid;
  reads =
      fun_ext (λ m. get_string_value-set s name value m r.valid) ∙ ap (update name value) r.reads;
}

set_all-Refines :
    (calls : List (Bytes × Bytes)) (s : Session) (f : Names)
    → Refines s f
    → Refines (set_all calls s) (updates calls f)
set_all-Refines [] s f r = r
set_all-Refines ((name, value) ∷ calls) s f r =
    set_all-Refines calls (set_string_value s name value) (update name value f)
      (set_string_value-Refines s f name value r)

-- A new session refines a map from names to values, whatever calls of `setStringValue` follow: at
-- any time every pointer that it holds is to an object of its own, and `getStringValue` gives for
-- each name the value that was set last, or else the empty one.
pub new_session-set_all :
    (now incremental : ℕ) (calls : List (Bytes × Bytes))
    → Refines (set_all calls (new_session now incremental).0) (updates calls no_names)
new_session-set_all now incremental calls =
    set_all-Refines calls (new_session now incremental).0 no_names
      (new_session-Refines now incremental)
