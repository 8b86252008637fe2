-- ===== src/Database/Pool.antt =====
-- src/server/CDatabase.cpp and CDatabaseInstance.cpp: the pool of connections. Whether a connection
-- can be opened is a parameter.
pub mod Sharing
pub mod Invariant
use solusek.Base.{
  ℕ, suc, ◌+◌, ◌-◌, Bool, true, false, not, ◌&&◌, ◌==◌, ltb, List, [], ◌∷◌, ◌++◌, Option, none,
  some, if◌then◌else◌, Bytes, str_eq,
}

-- `CDatabaseInstance`
pub record Instance : Type 0 where
  pub id : ℕ
  pub used : Bool
  pub connected : Bool
  pub connection_string : Bytes
  -- `T`, in seconds.
  pub time : ℕ

-- `CDatabase`, with the static counter of the instances.
pub record Pool : Type 0 where
  pub instances : List Instance
  pub connection_string : Bytes
  pub expire_seconds : ℕ
  pub counter : ℕ

-- The constructor of `CDatabaseInstance`; `opens` is what the driver's `open` returns.
unfoldable pub new_instance : ℕ → Bytes → ℕ → Bool → Instance
new_instance counter cs now opens = record {
  id = counter;
  used = opens;
  connected = opens;
  connection_string = cs;
  time = if opens then now else 0;
}

-- `inUse`
abbrev pub in_use : Instance → Bool
in_use i = i.used

-- `dispose`
unfoldable pub dispose : Instance → Instance
dispose i = record i { used = false }

-- `putInUse`, which nothing calls.
unfoldable pub put_in_use : ℕ → Instance → Instance
put_in_use now i = record i { used = true; time = now }

unfoldable pub get_unused_instance : Bytes → List Instance → Option Instance
get_unused_instance cs [] = none
get_unused_instance cs (i ∷ is) =
    if not (in_use i) && str_eq cs i.connection_string then some i else get_unused_instance cs is

-- `open` with a free instance, or else with a new one; `none` is the thrown `runtime_error`.
unfoldable pub open_with : Option Instance → ℕ → Bool → Pool → Pool × Option Instance
unfolding new_instance
open_with (some i) now opens p = (p, some i)
open_with none now opens p =
    let di = new_instance p.counter p.connection_string now opens in
    if not di.connected
    then (record p { counter = suc p.counter }, none)
    else (record p { instances = p.instances ++ di ∷ []; counter = suc p.counter }, some di)

unfoldable pub open_instance : ℕ → Bool → Pool → Pool × Option Instance
unfolding open_with get_unused_instance
open_instance now opens p =
    open_with (get_unused_instance p.connection_string p.instances) now opens p

-- The user's `dispose` of the instance with this id.
unfoldable pub dispose_in : ℕ → List Instance → List Instance
unfolding dispose
dispose_in id [] = []
dispose_in id (i ∷ is) = (if i.id == id then dispose i else i) ∷ dispose_in id is

unfoldable pub dispose_instance : ℕ → Pool → Pool
unfolding dispose_in
dispose_instance id p = record p { instances = dispose_in id p.instances }

-- One pass of `_poolThread` at the time `now`.
unfoldable pub expire_in : ℕ → ℕ → List Instance → List Instance
expire_in now limit [] = []
expire_in now limit (i ∷ is) =
    if not (in_use i) && ltb limit (now - i.time)
    then expire_in now limit is
    else i ∷ expire_in now limit is

unfoldable pub expire : ℕ → Pool → Pool
unfolding expire_in
expire now p = record p { instances = expire_in now p.expire_seconds p.instances }

unfoldable pub close_all : Pool → Pool
close_all p = record p { instances = [] }

unfoldable pub set_connection_string : Bytes → Pool → Pool
set_connection_string cs p = record p { connection_string = cs }

unfoldable pub remove_in : ℕ → List Instance → List Instance
remove_in id [] = []
remove_in id (i ∷ is) = if i.id == id then is else i ∷ remove_in id is

-- `removeInstance`
unfoldable pub remove_instance : ℕ → Pool → Pool
unfolding remove_in
remove_instance id p = record p { instances = remove_in id p.instances }
