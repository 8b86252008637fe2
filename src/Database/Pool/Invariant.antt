-- ===== src/Database/Pool/Invariant.antt =====
-- The invariant of the pool.
use solusek.Base.{
  ℕ, suc, ◌-◌, ◌<◌, Bool, true, false, not, ◌&&◌, ◌==◌, ltb, List, [], ◌∷◌, ◌++◌, ◌≡◌, ◌≢◌, refl,
  arith, Option, none, some, inl, inr, Bool-cases, All, All-append, Bytes,
}
use solusek.Database.Pool.{
  Instance, Pool, in_use, new_instance, dispose, open_with, open_instance, dispose_in,
  dispose_instance, expire_in, expire, close_all, set_connection_string, remove_in, remove_instance,
}

-- Every instance is connected and was numbered by the counter.
abbrev pub IsFine : ℕ → Instance → Type 0
IsFine n i = (i.connected ≡ true) × (i.id < n)

-- All ids differ.
abbrev pub IsDistinct : List Instance → Type 0
IsDistinct [] = Unit
IsDistinct (i ∷ is) = All (λ j. j.id ≢ i.id) is × IsDistinct is

pub record IsPool (p : Pool) : Type 0 where
  pub fine : All (IsFine p.counter) p.instances
  pub distinct : IsDistinct p.instances

IsFine-more : (n : ℕ) (is : List Instance) → All (IsFine n) is → All (IsFine (suc n)) is
IsFine-more n [] h = tt
IsFine-more n (i ∷ is) h = ((h.0.0, omega arith), IsFine-more n is h.1)

new_id :
    (n : ℕ) (is : List Instance) (j : Instance)
    → All (IsFine n) is
    → IsDistinct is
    → j.id ≡ n
    → IsDistinct (is ++ j ∷ [])
new_id n [] j h d e = (tt, tt)
new_id n (i ∷ is) j h d e =
    (All-append _ is (j ∷ []) d.0 (ground arith, tt), new_id n is j h.1 d.1 e)

module _ (P : Instance → Type 0) where
  dispose_in-All :
      (id : ℕ) (is : List Instance)
      → ((i : Instance) → P i → P (dispose i))
      → All P is
      → All P (dispose_in id is)
  unfolding dispose_in
  dispose_in-All id [] keep h = tt
  dispose_in-All id (i ∷ is) keep h = elim (Bool-cases (i.id == id)) [
    | inl e ↦ rw e (keep i h.0, dispose_in-All id is keep h.1)
    | inr e ↦ rw e (h.0, dispose_in-All id is keep h.1)
  ]

  expire_in-All : (now limit : ℕ) (is : List Instance) → All P is → All P (expire_in now limit is)
  unfolding expire_in
  expire_in-All now limit [] h = tt
  expire_in-All now limit (i ∷ is) h = ground (arith, expire_in-All now limit is h.1)

  remove_in-All : (id : ℕ) (is : List Instance) → All P is → All P (remove_in id is)
  unfolding remove_in
  remove_in-All id [] h = tt
  remove_in-All id (i ∷ is) h = ground (arith, remove_in-All id is h.1)

dispose_in-IsDistinct :
    (id : ℕ) (is : List Instance) → IsDistinct is → IsDistinct (dispose_in id is)
unfolding dispose_in dispose
dispose_in-IsDistinct id [] d = tt
dispose_in-IsDistinct id (i ∷ is) d = elim (Bool-cases (i.id == id)) [
  | inl e ↦
      rw e (dispose_in-All (λ j. j.id ≢ i.id) id is (λ j h. h) d.0, dispose_in-IsDistinct id is d.1)
  | inr e ↦
      rw e (dispose_in-All (λ j. j.id ≢ i.id) id is (λ j h. h) d.0, dispose_in-IsDistinct id is d.1)
]

expire_in-IsDistinct :
    (now limit : ℕ) (is : List Instance) → IsDistinct is → IsDistinct (expire_in now limit is)
unfolding expire_in
expire_in-IsDistinct now limit [] d = tt
expire_in-IsDistinct now limit (i ∷ is) d =
    elim (Bool-cases (not (in_use i) && ltb limit (now - i.time))) [
      | inl e ↦ rw e (expire_in-IsDistinct now limit is d.1)
      | inr e ↦
          rw e (
            expire_in-All (λ j. j.id ≢ i.id) now limit is d.0,
            expire_in-IsDistinct now limit is d.1,
          )
    ]

remove_in-IsDistinct : (id : ℕ) (is : List Instance) → IsDistinct is → IsDistinct (remove_in id is)
unfolding remove_in
remove_in-IsDistinct id [] d = tt
remove_in-IsDistinct id (i ∷ is) d = elim (Bool-cases (i.id == id)) [
  | inl e ↦ rw e d.1
  | inr e ↦ rw e (remove_in-All (λ j. j.id ≢ i.id) id is d.0, remove_in-IsDistinct id is d.1)
]

open_with-IsPool :
    (o : Option Instance) (now : ℕ) (opens : Bool) (p : Pool)
    → IsPool p
    → IsPool (open_with o now opens p).0
unfolding open_with new_instance
open_with-IsPool (some i) now opens p h = h
open_with-IsPool none now true p h = record {
  fine =
      All-append _ p.instances _ (IsFine-more p.counter p.instances h.fine)
        ((refl, omega arith), tt);
  distinct = new_id p.counter p.instances _ h.fine h.distinct refl;
}
open_with-IsPool none now false p h = record {
  fine = IsFine-more p.counter p.instances h.fine;
  distinct = h.distinct;
}

-- Every operation of the pool keeps its instances connected, their ids different and below the
-- counter.
pub pool-IsPool :
    (p : Pool) (now id : ℕ) (opens : Bool) (cs : Bytes)
    → IsPool p
    → IsPool (open_instance now opens p).0
      × IsPool (dispose_instance id p)
      × IsPool (expire now p)
      × IsPool (close_all p)
      × IsPool (set_connection_string cs p)
      × IsPool (remove_instance id p)
unfolding open_instance dispose_instance dispose expire close_all set_connection_string
    remove_instance
pool-IsPool p now id opens cs h = (
  open_with-IsPool _ now opens p h,
  record {
    fine = dispose_in-All (IsFine p.counter) id p.instances (λ i k. k) h.fine;
    distinct = dispose_in-IsDistinct id p.instances h.distinct;
  },
  record {
    fine = expire_in-All (IsFine p.counter) now p.expire_seconds p.instances h.fine;
    distinct = expire_in-IsDistinct now p.expire_seconds p.instances h.distinct;
  },
  record { fine = tt; distinct = tt },
  record { fine = h.fine; distinct = h.distinct },
  record {
    fine = remove_in-All (IsFine p.counter) id p.instances h.fine;
    distinct = remove_in-IsDistinct id p.instances h.distinct;
  },
)
