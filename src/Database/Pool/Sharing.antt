-- ===== src/Database/Pool/Sharing.antt =====
-- What `open` hands out.
use solusek.Base.{
  ℕ, ◌-◌, ◌<◌, Bool, false, not, ◌&&◌, List, [], ◌∷◌, ◌++◌, ◌≡◌, refl, ap, ◌∙◌, arith, Option, some,
  All, Bytes, str_eq, str_eq_refl, lt→ltb,
}
use solusek.Database.Pool.{
  Instance, Pool, get_unused_instance, open_with, open_instance, expire_in, expire,
}

-- It is used, or for another connection string.
abbrev pub IsTaken : Bytes → Instance → Type 0
IsTaken cs i = (not i.used && str_eq cs i.connection_string) ≡ false

get_unused_instance-append :
    (cs : Bytes) (before after : List Instance) (i : Instance)
    → All (IsTaken cs) before
    → i.used ≡ false
    → i.connection_string ≡ cs
    → get_unused_instance cs (before ++ i ∷ after) ≡ some i
unfolding get_unused_instance
get_unused_instance-append cs [] after i h free same = rw (free, same, str_eq_refl cs) refl
get_unused_instance-append cs (j ∷ before) after i h free same =
    rw (h.0) (get_unused_instance-append cs before after i h.1 free same)

expire_in-append :
    (now limit : ℕ) (is js : List Instance)
    → expire_in now limit (is ++ js) ≡ expire_in now limit is ++ expire_in now limit js
unfolding expire_in
expire_in-append now limit [] js = refl
expire_in-append now limit (i ∷ is) js = ground (arith, expire_in-append now limit is js)

expire_in-first :
    (now limit : ℕ) (i : Instance) (is : List Instance)
    → i.used ≡ false
    → limit < now - i.time
    → expire_in now limit (i ∷ is) ≡ expire_in now limit is
unfolding expire_in
expire_in-first now limit i is free old = rw (free, lt→ltb limit (now - i.time) old) refl

-- The first instance of the pool that is not used and has the pool's connection string is what `open`
-- hands out. It leaves the pool as it was, so the next `open` hands the same instance out again; and a
-- pass of the pool's thread more than the limit of seconds behind the instance's time takes it from
-- the pool, with both callers still at it.
pub open_shares :
    (now now' : ℕ) (opens opens' : Bool) (p : Pool) (before after : List Instance) (i : Instance)
    → p.instances ≡ before ++ i ∷ after
    → All (IsTaken p.connection_string) before
    → i.used ≡ false
    → i.connection_string ≡ p.connection_string
    → p.expire_seconds < now' - i.time
    → (open_instance now opens p ≡ (p, some i))
      × (open_instance now' opens' (open_instance now opens p).0 ≡ (p, some i))
      × ((expire now' p).instances
          ≡ expire_in now' p.expire_seconds before ++ expire_in now' p.expire_seconds after)
unfolding open_instance open_with expire
open_shares now now' opens opens' p before after i split taken free same old =
    let limit = p.expire_seconds in
    let e =
      ap (get_unused_instance p.connection_string) split
      ∙ get_unused_instance-append p.connection_string before after i taken free same in
    let first : open_instance now opens p ≡ (p, some i) = ap (λ o. open_with o now opens p) e in
    (
      first,
      ap (λ (r : Pool × Option Instance). open_instance now' opens' r.0) first
          ∙ ap (λ o. open_with o now' opens' p) e,
      ap (expire_in now' limit) split
          ∙ expire_in-append now' limit before (i ∷ after)
          ∙ ap (λ is. expire_in now' limit before ++ is)
              (expire_in-first now' limit i after free old),
    )
