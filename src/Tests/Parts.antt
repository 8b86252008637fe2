-- ===== src/Tests/Parts.antt =====
-- Texts, numbers, files, sessions and address lists.
use solusek.Base.{
  All, List, ◌&&◌, [], ◌∷◌, ◌≡◌, refl, arith, none, some, leb, if◌then◌else◌, Bytes, codes, str_eq,
}
use solusek.Files.{Disk, Log}
use solusek.Decimal.{print_nat}
use solusek.Server.{Server, get_session, find_session}
use solusek.Server.Sessions.{start_all, IsTenDigits, start_all-found}
use solusek.Server.Sessions.Races.{idle, Starting, StartReach, same_id_twice}
use solusek.Session.{new_session, Session, get, find_item, set_string_value, destroy}
use solusek.Session.Refines.{Refines, set_all, updates, no_names, new_session-set_all}
use solusek.Session.Aliasing.{set_twice_double_delete}
use solusek.Socket.Access.{is_addr_in_range}
use solusek.Socket.Access.Ranges.{dotted, is_addr_in_range-dotted}

abbrev one_file : Disk
one_file = record {
  open_file = λ name. if str_eq name (codes "a.txt") then some (codes "text") else none;
  mod_time = λ name. [];
}

abbrev quiet : Log
quiet = record { opened = []; handles = 3 }

abbrev visit : Session
visit = record {
  id = codes "1";
  cells = record { var = codes "user"; val = codes "ann" } ∷ [];
  items = 0 ∷ [];
}

set_twice_double_delete_example :
    destroy (set_string_value visit (codes "user") (codes "bob")) ≡ none
unfolding get find_item
set_twice_double_delete_example = set_twice_double_delete visit (codes "user") (codes "bob") 0 refl

is_addr_in_range-dotted_example :
    is_addr_in_range
      (dotted (codes "10.0.0") 7)
      (dotted (codes "10.0.0") 1)
      (dotted (codes "10.0.9") 9)
    ≡ some (leb 7 9 && leb 1 7)
is_addr_in_range-dotted_example =
    is_addr_in_range-dotted (codes "10.0.0") (codes "10.0.9") 1 9 7 refl (ground arith)
      (ground arith) (ground arith) (ground arith)

-- A name is set twice.
abbrev calls : List (Bytes × Bytes)
calls = (codes "user", codes "al") ∷ (codes "lang", codes "en") ∷ (codes "user", codes "bob") ∷ []

new_session-set_all_example :
    Refines (set_all calls (new_session 1574000000 3).0) (updates calls no_names)
new_session-set_all_example = new_session-set_all 1574000000 3 calls

-- Sessions started one after another, and at once.
abbrev no_sessions : Server
no_sessions = record {
  endpoints = [];
  static_endpoints = [];
  static_indexes = [];
  sessions = [];
  mime_types = [];
  incremental = 7;
}

times : All IsTenDigits (1600000000 ∷ 1600000000 ∷ 1600000001 ∷ [])
unfolding print_nat
times = (refl, (refl, (refl, tt)))

start_all-found_example :
    let t = start_all (1600000000 ∷ 1600000000 ∷ 1600000001 ∷ []) no_sessions in
    All (λ (ses : Session). get_session t ses.id ≡ some ses) t.sessions
start_all-found_example =
    start_all-found (1600000000 ∷ 1600000000 ∷ 1600000001 ∷ []) no_sessions refl times
      (ground arith)

abbrev two_idle : Starting
two_idle = record { incremental = 7; places = λ k. idle; sessions = [] }

same_id_twice_example :
    let ses = (new_session 1600000000 7).0 in
    (t : Starting) × StartReach two_idle t
    × (t.sessions ≡ ses ∷ ses ∷ [])
    × (find_session t.sessions ses.id ≡ some ses)
unfolding find_session
same_id_twice_example = same_id_twice two_idle 0 1 1600000000 (λ e. omega arith) refl refl refl
