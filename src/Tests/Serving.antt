-- ===== src/Tests/Serving.antt =====
-- The server: static files, registries, threads.
use solusek.Base.{
  false, ℕ, suc, ◌+◌, ◌≤◌, true, [], ◌∷◌, ◌≡◌, refl, arith, none, some, if◌then◌else◌, codes,
  str_eq,
}
use solusek.Model.{Endpoint, new_endpoint, MimeType, new_mime_type}
use solusek.Files.{Disk, Log}
use solusek.Server.{Server, default_mime_types}
use solusek.Server.Static.{get_static_endpoint}
use solusek.Server.Static.Ends.{IsSmall, Answers, get_static_endpoint-Answers}
use solusek.Socket.Tls.{Library}
use solusek.Server.Threads.{
  State, Reach, here, more, stop, Apart, alone, step, initial, checking, accepting, counting,
  counted, returned, count_up, enter, pass, read_up, write_up, create,
}
use solusek.Server.Threads.Bound.{threads, Apart-threads}
use solusek.Server.Threads.Returns.{Apart-returns}
use solusek.Server.Threads.Stuck.{miscounted, overlap_sticks}

abbrev site : Server
site = record {
  endpoints = [];
  static_endpoints = record { host = []; path = codes "/www" } ∷ [];
  static_indexes = codes "index.html" ∷ [];
  sessions = [];
  mime_types = default_mime_types;
  incremental = 0;
}

abbrev disk : Disk
disk = record {
  open_file = λ name. if str_eq name (codes "/www//index.html") then some (codes "<p>") else none;
  mod_time = λ name. [];
}

abbrev fresh : Log
fresh = record { opened = []; handles = 0 }

disk-IsSmall : IsSmall disk
disk-IsSmall name content e = ground arith

get_static_endpoint-Answers_example :
    Answers (get_static_endpoint 2 site disk 0 (codes "GET") (some (codes "h")) (codes "/") fresh)
get_static_endpoint-Answers_example =
    get_static_endpoint-Answers disk disk-IsSmall 0 site 0 (codes "GET") (some (codes "h"))
      (codes "/") fresh (ground arith)

abbrev bad_site : Server
bad_site = record site { static_indexes = [] ∷ [] }

abbrev api : Endpoint
api = new_endpoint (codes "/api") 1 (codes "POST")

abbrev json : MimeType
json = new_mime_type (codes "json") true []

-- One connection up to its thread.
abbrev one_thread : State
one_thread = record (initial 25) { next_id = 1; starting = 0 ∷ []; thread_count = 1 }

one_thread-Apart : Apart (initial 25) one_thread
one_thread-Apart =
    let s = initial 25 in
    let s1 : State = record s { phase = checking } in
    let s2 : State = record s1 { phase = accepting } in
    let s3 : State = record s2 { phase = counting 0 } in
    let s4 : State = record s3 { phase = counted; thread_count = count_up 0 } in
    step
      (step
        (step
          (step (step alone (enter s refl refl) (omega arith)) (pass s1 refl refl) (omega arith))
          (read_up s2 refl) (omega arith))
        (write_up s3 0 refl) (omega arith))
      (create s4 refl refl) (omega arith)

Apart-threads_example :
    (threads one_thread + 0 ≤ 26)
    × (threads one_thread + 0 ≤ 1)
    × (1 ≤ suc (threads one_thread + 0))
Apart-threads_example = Apart-threads 25 one_thread (ground arith) one_thread-Apart

abbrev stopping : State
stopping = record one_thread { stop_signal = true }

Apart-returns_example :
    (t : State) × (k : ℕ) × Apart one_thread t × (t.phase ≡ returned k) × (threads t ≡ 0)
Apart-returns_example = Apart-returns 25 one_thread (ground arith) one_thread-Apart (omega arith)

-- Also with the signal set, the loop waits.
overlap_sticks_example :
    Reach (initial 25) (miscounted 25)
    × (threads (miscounted 25) ≡ 0)
    × ((record (miscounted 25) { stop_signal = true }).phase ≡ checking)
overlap_sticks_example =
    overlap_sticks 25 (record (miscounted 25) { stop_signal = true }) (ground arith) (ground arith)
      (more here (stop (miscounted 25)))

-- A library that can load no file.
abbrev no_files : Library
no_files = record {
  use_certificate_file = λ fn. false;
  use_private_key_file = λ fn. false;
  load_verify_locations = λ fn. false;
  load_client_ca_file = λ fn. false;
  certificates = λ fn. none;
  private_key = λ fn. none;
  default_depth = 100;
}
