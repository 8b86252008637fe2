-- ===== src/Server/Threads/Limit.antt =====
-- How far the limit holds, and when the loop returns.
use solusek.Base.{
  ℕ, zero, suc, ◌≤◌, ◌<◌, true, false, List, [], ◌∷◌, ◌≡◌, refl, arith, length, u32_mod,
}
use solusek.Server.Threads.{
  top, checking, accepting, counting, counted, draining, returned, State, initial, count_up, enter,
  leave, pass, read_up, write_up, create, drained, Reach, here, more,
}

-- The accept loop with `k` threads, none of which has begun.
abbrev pub IsBusy : ℕ → ℕ → State → Type 0
IsBusy limit k s =
    (s.phase ≡ top)
    × (s.stop_signal ≡ false)
    × (s.thread_limit ≡ limit)
    × (s.thread_count ≡ k)
    × (length s.starting ≡ k)

one_more :
    (limit k : ℕ) (s : State)
    → suc limit < u32_mod
    → k ≤ limit
    → IsBusy limit k s
    → (t : State) × Reach s t × IsBusy limit (suc k) t
one_more limit k s small le (p, b, l, c, n) =
    let s1 : State = record s { phase = checking } in
    let s2 : State = record s1 { phase = accepting } in
    let s3 : State = record s2 { phase = counting s2.thread_count } in
    let s4 : State = record s3 { phase = counted; thread_count = count_up s3.thread_count } in
    let s5 : State = record s4 {
      phase = top;
      next_id = suc s4.next_id;
      starting = s4.next_id ∷ s4.starting;
    } in
    (
      s5,
      more
          (more
            (more (more (more here (enter s p b)) (pass s1 refl (ground (arith, l, c))))
              (read_up s2 refl))
            (write_up s3 s3.thread_count refl))
          (create s4 refl b),
      (refl, b, l, omega (arith, c), omega (arith, n)),
    )

fill :
    (limit k : ℕ)
    → suc limit < u32_mod
    → k ≤ suc limit
    → (t : State) × Reach (initial limit) t × IsBusy limit k t
fill limit zero small le = (initial limit, here, (refl, refl, refl, refl, refl))
fill limit (suc k) small le =
    let (s, r, h) = fill limit k small (omega arith) in
    let (t, r', h') = one_more limit k s small (omega arith) h in (t, reach_join r r', h')
  where
    reach_join : {a b c : State} → Reach a b → Reach b c → Reach a c
    reach_join r here = r
    reach_join r (more r' st) = more (reach_join r r') st

-- For a limit below 2^32 - 1, a state is reachable in which `ThreadLimit + 1` threads exist.
pub limit_passed :
    (limit : ℕ)
    → suc limit < u32_mod
    → (t : State) × Reach (initial limit) t × (length t.starting ≡ suc limit)
limit_passed limit small =
    let (t, r, h) = fill limit (suc limit) small (omega arith) in (t, r, ground arith)

-- At the top of the loop, with the signal to stop set and nothing in `Nodes`, the loop can return
-- while the threads that it created have yet to begin.
pub returns_early :
    (s : State) (id : ℕ) (rest : List ℕ)
    → s.phase ≡ top
    → s.stop_signal ≡ true
    → s.nodes ≡ []
    → s.starting ≡ id ∷ rest
    → (t : State) × Reach s t × (t.phase ≡ returned 0) × (t.starting ≡ id ∷ rest)
returns_early s id rest p b n st =
    let s1 : State = record s { phase = draining 0 } in
    (
      record s1 { phase = returned 0 },
      more (more here (leave s p b)) (drained s1 0 refl n),
      refl,
      st,
    )
