-- ===== src/Tests/Storage.antt =====
-- Transactions and the pool of connections.
use solusek.Base.{
  All, none, if◌then◌else◌, ◌==◌, ◌≡◌, refl, arith, true, false, [], ◌∷◌, some, Bytes, codes, pos,
}
use solusek.Database.Lock.{Spin, SpinReach, unlocked, inside}
use solusek.Database.Lock.Shared.{unlocked-inside}
use solusek.Database.Transaction.{Resource, Driver, Transaction, Vars, select_sql, empty_resource}
use solusek.Database.Handle.Ownership.{Store, cleanup_handles, dispose_handle, dispose-cleanup}
use solusek.Database.Pool.{
  Instance, Pool, expire_in, open_instance, dispose_instance, expire, close_all,
  set_connection_string, remove_instance,
}
use solusek.Database.Pool.Sharing.{open_shares}
use solusek.Database.Pool.Invariant.{IsPool, pool-IsPool}

-- Puts a backslash before each quote.
abbrev escape_quotes : Bytes → Bytes
escape_quotes [] = []
escape_quotes (c ∷ s) = elim (c == b'\'') [
  | true ↦ b'\\' ∷ c ∷ escape_quotes s
  | false ↦ c ∷ escape_quotes s
]

abbrev driver : Driver
driver = record {
  esc = escape_quotes;
  exec = λ n s. pos 0;
  insert = λ n s id. empty_resource;
  query_one = λ n s. empty_resource;
  query = λ n s. (true, (codes "1" ∷ []) ∷ (codes "2" ∷ []) ∷ []);
}

abbrev user : Vars
user = (codes "age", codes "30") ∷ (codes "name", codes "O'Neil") ∷ []

abbrev begun : Transaction
begun = record { issued = []; handles = [] }

abbrev ids : Bytes
ids = select_sql driver (codes "users") (codes "id" ∷ []) [] [] []

abbrev two_rows : Resource
two_rows = record empty_resource { rows = (codes "1" ∷ []) ∷ (codes "2" ∷ []) ∷ [] }

-- A pool whose only instance was disposed of.
abbrev idle : Instance
idle = record { id = 1; used = false; connected = true; connection_string = codes "db"; time = 10 }

abbrev pool : Pool
pool = record {
  instances = idle ∷ [];
  connection_string = codes "db";
  expire_seconds = 60;
  counter = 2;
}

open_shares_example :
    (open_instance 20 true pool ≡ (pool, some idle))
    × (open_instance 100 true (open_instance 20 true pool).0 ≡ (pool, some idle))
    × ((expire 100 pool).instances ≡ [])
unfolding expire_in
open_shares_example = open_shares 20 100 true true pool [] [] idle refl tt refl refl (ground arith)

pool-IsPool_example :
    IsPool (open_instance 20 true pool).0
    × IsPool (dispose_instance 1 pool)
    × IsPool (expire 20 pool)
    × IsPool (close_all pool)
    × IsPool (set_connection_string (codes "other") pool)
    × IsPool (remove_instance 1 pool)
pool-IsPool_example =
    pool-IsPool pool 20 1 true (codes "other")
      (record { fine = ((refl, ground arith), tt); distinct = (tt, tt) })

abbrev both_inside : Spin
both_inside = record { lock = true; places = inside ∷ inside ∷ [] }

unlocked-inside_example : SpinReach (unlocked 2) both_inside
unlocked-inside_example = unlocked-inside 1

abbrev two_handles : Store
two_handles i =
    if i == 4
    then some (record { rs = some empty_resource; own_id = [] })
    else if i == 7
    then some (record { rs = none; own_id = [] })
    else none

dispose-cleanup_example :
    ((s' : Store) × (cleanup_handles (4 ∷ 7 ∷ []) two_handles ≡ some s')
      × All (λ b. s' b ≡ none) (4 ∷ 7 ∷ []))
    × ((s' : Store) × (dispose_handle 7 two_handles ≡ some s')
        × (cleanup_handles (4 ∷ 7 ∷ []) s' ≡ none))
dispose-cleanup_example =
    dispose-cleanup (4 ∷ []) [] 7 two_handles
      ((_, refl), ((λ e. omega arith), tt), ((_, refl), tt, tt))
