-- ===== src/Server/Threads/Returns.antt =====
-- That the server can be stopped.
use solusek.Base.{
  ℕ, zero, suc, ◌≤◌, ◌<◌, true, List, [], ◌∷◌, ◌++◌, ◌≡◌, ==_refl, refl, ap, ◌∙◌, arith, length,
  u32_mod,
}
use solusek.Server.Threads.{
  Phase, top, checking, accepting, counting, counted, draining, returned, State, initial, count_up,
  count_down, remove_node, Step, leave, pass, read_up, write_up, break, drained, push, remove,
  read_down, write_down, stop, reading, holders, Apart, alone, step,
}
use solusek.Server.Threads.Bound.{
  threads, extra, IsCounted, Apart-holders, Apart-IsCounted, initial-IsCounted,
}

Apart-trans : {a b c : State} → Apart a b → Apart b c → Apart a c
Apart-trans r alone = r
Apart-trans r (step r' st one) = step (Apart-trans r r') st one

-- A state with less to do, where no change of the count is under way and as many creations have
-- failed.
record Reaches (s : State) (P : State → Type 0) : Type 0 where
  at : State
  by : Apart s at
  quiet : holders at ≡ 0
  same : at.failed ≡ s.failed
  done : P at

further :
    {s t : State} {P : State → Type 0} → Apart s t → t.failed ≡ s.failed → Reaches t P → Reaches s P
further r e q = record {
  at = q.at;
  by = Apart-trans r q.by;
  quiet = q.quiet;
  same = q.same ∙ e;
  done = q.done;
}

-- One step that changes neither the phase nor who holds a count.
on :
    {s t : State} {P : State → Type 0}
    → holders s ≡ 0
    → Step s t
    → holders t ≡ holders s
    → t.failed ≡ s.failed
    → Reaches t P
    → Reaches s P
on h st e f q = further (step alone st (omega (arith, h, e))) f q

-- The change of the count that is under way is finished.
finish_change : (s : State) → holders s ≤ 1 → Reaches s (λ t. 0 ≤ 0)
finish_change s one = go s.phase refl s.holding refl
  where
    quiet_already : holders s ≡ 0 → Reaches s (λ t. 0 ≤ 0)
    quiet_already h = record { at = s; by = alone; quiet = h; same = refl; done = omega arith }

    write : (v : ℕ) (vs : List ℕ) → s.holding ≡ v ∷ vs → Reaches s (λ t. 0 ≤ 0)
    write v vs e =
        let t : State = record s { holding = [] ++ vs; thread_count = count_down v } in
        let none : holders t ≡ 0 = omega (arith, one, ap length e) in
        record {
          at = t;
          by = step alone (write_down s v [] vs e) (omega (arith, none));
          quiet = none;
          same = refl;
          done = omega arith;
        }

    go : (p : Phase) → s.phase ≡ p → (vs : List ℕ) → s.holding ≡ vs → Reaches s (λ t. 0 ≤ 0)
    go p e (v ∷ vs) f = write v vs f
    go (counting n) e [] f =
        let t : State = record s { phase = counted; thread_count = count_up n } in
        let none : holders t ≡ 0 = omega (arith, ap length f) in
        record {
          at = t;
          by = step alone (write_up s n e) (omega (arith, none));
          quiet = none;
          same = refl;
          done = omega arith;
        }
    go top e [] f = quiet_already (omega (arith, ap reading e, ap length f))
    go checking e [] f = quiet_already (omega (arith, ap reading e, ap length f))
    go accepting e [] f = quiet_already (omega (arith, ap reading e, ap length f))
    go counted e [] f = quiet_already (omega (arith, ap reading e, ap length f))
    go (draining k) e [] f = quiet_already (omega (arith, ap reading e, ap length f))
    go (returned k) e [] f = quiet_already (omega (arith, ap reading e, ap length f))

-- Every thread that was created enters `Nodes`.
push_all :
    (l : List ℕ) (s : State) → holders s ≡ 0 → s.starting ≡ l → Reaches s (λ t. t.starting ≡ [])
push_all [] s h e = record { at = s; by = alone; quiet = h; same = refl; done = e }
push_all (id ∷ l) s h e =
    let next : State = record s { starting = [] ++ l; nodes = s.nodes ++ id ∷ [] } in
    on h (push s id [] l e) refl refl (push_all l next h refl)

remove_first : (id : ℕ) (l : List ℕ) → remove_node id (id ∷ l) ≡ l
unfolding remove_node
remove_first id l = rw ==_refl

-- Every node leaves.
remove_all :
    (l : List ℕ) (s : State)
    → holders s ≡ 0
    → s.nodes ≡ l
    → s.starting ≡ []
    → Reaches s (λ t. (t.starting ≡ []) × (t.nodes ≡ []))
remove_all [] s q e h = record { at = s; by = alone; quiet = q; same = refl; done = (h, e) }
remove_all (id ∷ l) s q e h =
    let next : State = record s { nodes = remove_node id s.nodes; leaving = suc s.leaving } in
    on q (remove s id [] l e) refl refl
      (remove_all l next q (ap (remove_node id) e ∙ remove_first id l) h)

abbrev IsIdle : State → Type 0
IsIdle t = (t.starting ≡ []) × (t.nodes ≡ []) × (t.leaving ≡ 0)

-- Every thread is counted off, one after another.
count_all :
    (n : ℕ) (s : State)
    → holders s ≡ 0
    → s.leaving ≡ n
    → (s.starting ≡ []) × (s.nodes ≡ [])
    → Reaches s IsIdle
count_all zero s q e h = record { at = s; by = alone; quiet = q; same = refl; done = (h.0, h.1, e) }
count_all (suc n) s q e h =
    let c = s.thread_count in
    let held : State = record s { leaving = n; holding = c ∷ s.holding } in
    let next : State = record held { holding = [] ++ s.holding; thread_count = count_down c } in
    further
      (step (step alone (read_down s n e) (omega (arith, q))) (write_down held c [] s.holding refl)
        (omega (arith, q)))
      refl (count_all n next q refl h)

-- All threads can run to their ends.
finish_all : (s : State) → holders s ≤ 1 → Reaches s IsIdle
finish_all s one =
    let w = finish_change s one in
    let a = push_all w.at.starting w.at w.quiet refl in
    let b = remove_all a.at.nodes a.at a.quiet refl a.done in
    let c = count_all b.at.leaving b.at b.quiet refl b.done in
    further w.by w.same (further a.by a.same (further b.by b.same c))

-- The state that the loop returns in.
abbrev Ends : State → Type 0
Ends s = (t : State) × (k : ℕ) × Apart s t × (t.phase ≡ returned k) × (threads t ≡ 0)

Ends-more : {s t : State} → Apart s t → Ends t → Ends s
Ends-more r (t, k, r', e, n) = (t, k, Apart-trans r r', e, n)

-- The signal is set, and no thread is left.
record IsOver (s : State) : Type 0 where
  signal : s.stop_signal ≡ true
  idle : IsIdle s
  free : s.holding ≡ []

from_draining : (k : ℕ) (s : State) → s.phase ≡ draining k → IsOver s → Ends s
from_draining k s e o =
    let (a, b, c) = o.idle in
    (
      record s { phase = returned k },
      k,
      step alone (drained s k e b) (omega (arith, ap length o.free)),
      refl,
      ground (arith, a, b, c, o.free),
    )

again : (s : State) (p : Phase) → IsOver s → IsOver (record s { phase = p })
again s p o = record { signal = o.signal; idle = o.idle; free = o.free }

from_counted : (s : State) → s.phase ≡ counted → IsOver s → Ends s
from_counted s e o =
    Ends-more (step alone (break s e o.signal) (omega (arith, ap length o.free)))
      (from_draining 1 (record s { phase = draining 1 }) refl (again s (draining 1) o))

from_counting : (n : ℕ) (s : State) → s.phase ≡ counting n → IsOver s → Ends s
from_counting n s e o = Ends-more (step alone (write_up s n e) (omega (arith, ap length o.free))) (
    from_counted (record s { phase = counted; thread_count = count_up n }) refl
      (record { signal = o.signal; idle = o.idle; free = o.free }))

from_accepting : (s : State) → s.phase ≡ accepting → IsOver s → Ends s
from_accepting s e o =
    let n = s.thread_count in
    Ends-more (step alone (read_up s e) (omega (arith, ap length o.free)))
      (from_counting n (record s { phase = counting n }) refl (again s (counting n) o))

from_checking :
    (s : State) → s.phase ≡ checking → s.thread_count ≤ s.thread_limit → IsOver s → Ends s
from_checking s e le o =
    Ends-more (step alone (pass s e (ground (arith, le))) (omega (arith, ap length o.free)))
      (from_accepting (record s { phase = accepting }) refl (again s accepting o))

from_top : (s : State) → s.phase ≡ top → IsOver s → Ends s
from_top s e o =
    Ends-more (step alone (leave s e o.signal) (omega (arith, ap length o.free)))
      (from_draining 0 (record s { phase = draining 0 }) refl (again s (draining 0) o))

-- With no threads left and the signal set, the loop runs to its end.
idle-Ends : (limit : ℕ) (s : State) → IsCounted limit s → s.failed ≤ limit → IsOver s → Ends s
idle-Ends limit s c few o = go s.phase refl
  where
    none : threads s ≡ 0
    none = let (a, b, d) = o.idle in ground (arith, a, b, d, o.free)

    go : (p : Phase) → s.phase ≡ p → Ends s
    go top e = from_top s e o
    go checking e =
        from_checking s e (omega (arith, c.exact, c.same_limit, none, few, ap extra e)) o
    go accepting e = from_accepting s e o
    go (counting n) e = from_counting n s e o
    go counted e = from_counted s e o
    go (draining k) e = from_draining k s e o
    go (returned k) e = (s, k, alone, e, none)

no_holding : (s : State) → holders s ≡ 0 → s.holding ≡ []
no_holding s h = go s.holding refl
  where
    go : (vs : List ℕ) → s.holding ≡ vs → s.holding ≡ []
    go [] e = e
    go (v ∷ vs) e = absurd (omega (arith, h, ap length e))

-- For a limit below 2^32 - 1, from every state that the accept loop and its threads can get into with
-- no two changes of `ThreadCount` overlapping, and with at most `ThreadLimit` threads that could not be
-- created, they can get in the same way to one where `run` has returned and no thread is left: no such
-- order of steps leads into a deadlock.
pub Apart-returns :
    (limit : ℕ) (s : State)
    → suc limit < u32_mod
    → Apart (initial limit) s
    → s.failed ≤ limit
    → (t : State) × (k : ℕ) × Apart s t × (t.phase ≡ returned k) × (threads t ≡ 0)
Apart-returns limit s small r few =
    let f = finish_all s (Apart-holders (initial limit) s (omega arith) r) in
    let stopped : State = record f.at { stop_signal = true } in
    let there : Apart s stopped = step f.by (stop f.at) (omega (arith, f.quiet)) in
    let c =
      Apart-IsCounted limit (initial limit) stopped small (omega arith) (initial-IsCounted limit)
        (Apart-trans r there) in
    Ends-more there (
      idle-Ends limit stopped c (omega (arith, f.same, few))
        (record { signal = refl; idle = f.done; free = no_holding f.at f.quiet }))
