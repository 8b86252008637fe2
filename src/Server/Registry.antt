-- ===== src/Server/Registry.antt =====
-- Registering, looking up and removing.
use solusek.Base.{
  ℕ, ◌<◌, false, ◌&&◌, List, [], ◌∷◌, ◌++◌, ◌≡◌, ◌≢◌, refl, arith, Option, none, some, leb,
  if◌then◌else◌, Bytes, str_eq, str_eq_iff, append_cancel_left,
}
use solusek.Model.{Endpoint, MimeType}
use solusek.Session.{Session, new_session}
use solusek.Decimal.{print_nat}
use solusek.Decimal.RoundTrip.{print_nat_inj}
use solusek.Server.{
  Server, find_endpoint, get_endpoint, register_endpoint, find_mime, get_mime_type, erase_mime,
  add_mime_type, remove_mime_type, find_session, get_session, erase_session, start_session,
  destroy_session,
}

-- The first of two answers.
abbrev pub or_else {ℓ} : {A : Type ℓ} → Option A → Option A → Option A
or_else none b = b
or_else (some a) b = some a

find_endpoint-append :
    (es : List Endpoint) (e : Endpoint) (p m : Bytes)
    → find_endpoint (es ++ e ∷ []) p m
      ≡ or_else
          (find_endpoint es p m)
          (if str_eq e.path p && str_eq e.method m then some e else none)
unfolding find_endpoint
find_endpoint-append [] e p m = refl
find_endpoint-append (x ∷ es) e p m = ground (arith, find_endpoint-append es e p m)

-- A new endpoint answers for its path and method unless one registered before does, and every
-- other path and method is answered as before.
pub get_endpoint-register :
    (s : Server) (e : Endpoint) (p m : Bytes)
    → get_endpoint (register_endpoint s e) p m
      ≡ or_else (get_endpoint s p m) (if str_eq e.path p && str_eq e.method m then some e else none)
unfolding get_endpoint register_endpoint
get_endpoint-register s e p m = find_endpoint-append s.endpoints e p m

find_mime-append :
    (ts : List MimeType) (t : MimeType) (x : Bytes)
    → find_mime (ts ++ t ∷ []) x
      ≡ or_else (find_mime ts x) (if str_eq t.ext x then some t else none)
unfolding find_mime
find_mime-append [] t x = refl
find_mime-append (u ∷ ts) t x = ground (arith, find_mime-append ts t x)

find_mime-erase :
    (ts : List MimeType) (x y : Bytes)
    → str_eq x y ≡ false
    → find_mime (erase_mime ts x) y ≡ find_mime ts y
unfolding find_mime erase_mime
find_mime-erase [] x y h = refl
find_mime-erase (t ∷ ts) x y h =
    ground (arith, find_mime-erase ts x y h, str_eq_iff t.ext x, str_eq_iff t.ext y, str_eq_iff x y)

-- An added type is found for its extension unless an older one is, every other extension finds
-- what it found before, and removing an extension changes the answer for no other.
pub get_mime_type-laws :
    (s : Server) (t : MimeType) (x y : Bytes)
    → (get_mime_type (add_mime_type s t) x
        ≡ or_else (get_mime_type s x) (if str_eq t.ext x then some t else none))
      × (str_eq x y ≡ false → get_mime_type (remove_mime_type s x) y ≡ get_mime_type s y)
unfolding get_mime_type add_mime_type remove_mime_type
get_mime_type-laws s t x y = (find_mime-append s.mime_types t x, find_mime-erase s.mime_types x y)

-- Sessions made with different counter values at the same time have different ids.
pub new_session_ids :
    (now i j : ℕ)
    → i < 4294967295
    → j < 4294967295
    → i ≢ j
    → (new_session now i).0.id ≢ (new_session now j).0.id
unfolding new_session
new_session_ids now i j hi hj ne e =
    let ei : leb 4294967295 i ≡ false = ground arith in
    let ej : leb 4294967295 j ≡ false = ground arith in
    ne (
      print_nat_inj i j
        (append_cancel_left (print_nat now) (print_nat i) (print_nat j) (rw (ei, ej) at e)))

find_session-erase :
    (ss : List Session) (x y : Bytes)
    → str_eq x y ≡ false
    → find_session (erase_session ss x) y ≡ find_session ss y
unfolding find_session erase_session
find_session-erase [] x y h = refl
find_session-erase (t ∷ ts) x y h =
    ground
      (arith, find_session-erase ts x y h, str_eq_iff t.id x, str_eq_iff t.id y, str_eq_iff x y)

pub find_session-append :
    (ss : List Session) (t : Session) (x : Bytes)
    → find_session (ss ++ t ∷ []) x
      ≡ or_else (find_session ss x) (if str_eq t.id x then some t else none)
unfolding find_session
find_session-append [] t x = refl
find_session-append (u ∷ ss) t x = ground (arith, find_session-append ss t x)

-- A started session is found under its id unless an older one has that id, every other id finds
-- what it found before, and destroying a session changes the answer for no other id.
pub get_session-laws :
    (s : Server) (now : ℕ) (x y : Bytes)
    → (get_session (start_session s now).0 x
        ≡ or_else
            (get_session s x)
            (if str_eq (start_session s now).1.id x then some (start_session s now).1 else none))
      × (str_eq x y ≡ false → get_session (destroy_session s x) y ≡ get_session s y)
unfolding get_session start_session destroy_session
get_session-laws s now x y = (
  find_session-append s.sessions (new_session now s.incremental).0 x,
  find_session-erase s.sessions x y,
)
