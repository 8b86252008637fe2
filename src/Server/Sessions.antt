-- ===== src/Server/Sessions.antt =====
-- The sessions that a server starts one after another: `CSession::CSession`, `startSession` and `getSession`.
pub mod Races
use solusek.Base.{
  ℕ, suc, ◌+◌, ◌<◌, false, true, List, [], ◌∷◌, ◌++◌, ◌≡◌, ◌≢◌, refl, sym, ap, ◌∙◌, subst, arith,
  Option, none, some, inl, inr, leb, if◌then◌else◌, Bytes, Bool-cases, str_eq, str_eq_iff,
  str_eq_refl, length, drop, drop-append, All, All-append,
}
use solusek.Session.{Session, new_session}
use solusek.Decimal.{print_nat}
use solusek.Decimal.RoundTrip.{print_nat_inj}
use solusek.Server.{Server, find_session, get_session, start_session}
use solusek.Server.Registry.{or_else, find_session-append}

-- Sessions started at these times, in order.
abbrev pub start_all : List ℕ → Server → Server
start_all [] s = s
start_all (now ∷ times) s = start_all times (start_session s now).0

-- A time of ten decimal digits, as any from the year 2001 to the year 2286.
abbrev pub IsTenDigits : ℕ → Type 0
IsTenDigits now = length (print_nat now) ≡ 10

-- The session was made at a time of ten digits with a counter below this.
abbrev IsBelow : ℕ → Session → Type 0
IsBelow n ses =
    (now : ℕ) × (k : ℕ) × IsTenDigits now × (k < n) × (ses.id ≡ print_nat now ++ print_nat k)

record IsFresh (s : Server) : Type 0 where
  below : All (IsBelow s.incremental) s.sessions
  found : All (λ (ses : Session). get_session s ses.id ≡ some ses) s.sessions

id-new_session :
    (now i : ℕ) → i < 4294967295 → (new_session now i).0.id ≡ print_nat now ++ print_nat i
unfolding new_session
id-new_session now i h = let e : leb 4294967295 i ≡ false = ground arith in rw e refl

next-new_session : (now i : ℕ) → i < 4294967295 → (new_session now i).1 ≡ suc i
unfolding new_session
next-new_session now i h = let e : leb 4294967295 i ≡ false = ground arith in rw e refl

-- Behind times of the same length the counters are told apart.
same_counter :
    (a b i j : ℕ)
    → IsTenDigits a
    → IsTenDigits b
    → print_nat a ++ print_nat i ≡ print_nat b ++ print_nat j
    → i ≡ j
same_counter a b i j ha hb e = print_nat_inj i j (
    sym (drop-append (print_nat a) (print_nat i))
    ∙ ap (λ n. drop n (print_nat a ++ print_nat i)) (ha ∙ sym hb)
    ∙ ap (drop (length (print_nat b))) e
    ∙ drop-append (print_nat b) (print_nat j))

-- An id that none of the sessions has is not found.
find_session-none :
    (ss : List Session) (x : Bytes)
    → All (λ (ses : Session). ses.id ≢ x) ss
    → find_session ss x ≡ none
unfolding find_session
find_session-none [] x h = refl
find_session-none (ses ∷ ss) x h = elim (Bool-cases (str_eq ses.id x)) [
  | inl e ↦ absurd (h.0 ((str_eq_iff ses.id x).0 e))
  | inr e ↦ rw e (find_session-none ss x h.1)
]

other_ids :
    (ss : List Session) (now i : ℕ)
    → IsTenDigits now
    → All (IsBelow i) ss
    → All (λ (ses : Session). ses.id ≢ print_nat now ++ print_nat i) ss
other_ids [] now i h b = tt
other_ids (ses ∷ ss) now i h b =
    let (at, k, ten, less, same) = b.0 in
    (
      λ e. absurd (omega (arith, same_counter at now k i ten h (sym same ∙ e))),
      other_ids ss now i h b.1,
    )

raise-IsBelow : (ss : List Session) (i : ℕ) → All (IsBelow i) ss → All (IsBelow (suc i)) ss
raise-IsBelow [] i b = tt
raise-IsBelow (ses ∷ ss) i b =
    let (at, k, ten, less, same) = b.0 in ((at, k, ten, omega arith, same), raise-IsBelow ss i b.1)

-- What the older sessions' ids find, they find among more sessions.
still_found :
    (ss more : List Session) (t : Session)
    → All (λ (ses : Session). find_session ss ses.id ≡ some ses) more
    → All (λ (ses : Session). find_session (ss ++ t ∷ []) ses.id ≡ some ses) more
still_found ss [] t h = tt
still_found ss (ses ∷ more) t h = (
  find_session-append ss t ses.id
      ∙ ap (λ o. or_else o (if str_eq t.id ses.id then some t else none)) h.0,
  still_found ss more t h.1,
)

start_session-IsFresh :
    (s : Server) (now : ℕ)
    → IsTenDigits now
    → s.incremental < 4294967295
    → IsFresh s
    → IsFresh (start_session s now).0
unfolding start_session get_session
start_session-IsFresh s now ten small h =
    let ses = (new_session now s.incremental).0 in
    let i = s.incremental in
    let named = id-new_session now i small in
    record {
      below =
          subst (λ n. All (IsBelow n) (s.sessions ++ ses ∷ [])) (sym (next-new_session now i small))
            (All-append (IsBelow (suc i)) s.sessions (ses ∷ []) (raise-IsBelow s.sessions i h.below)
              ((now, i, ten, omega arith, named), tt));
      found =
          All-append (λ (u : Session). find_session (s.sessions ++ ses ∷ []) u.id ≡ some u)
            s.sessions (ses ∷ []) (still_found s.sessions s.sessions ses h.found)
            (
              find_session-append s.sessions ses ses.id
                  ∙ ap (λ o. or_else o (if str_eq ses.id ses.id then some ses else none))
                      (find_session-none s.sessions ses.id (
                        subst (λ x. All (λ (u : Session). u.id ≢ x) s.sessions) (sym named)
                          (other_ids s.sessions now i ten h.below)))
                  ∙ ap (λ b. if b then some ses else none) (str_eq_refl ses.id),
              tt,
            );
    }

start_all-IsFresh :
    (times : List ℕ) (s : Server)
    → All IsTenDigits times
    → s.incremental + length times < 4294967295
    → IsFresh s
    → IsFresh (start_all times s)
start_all-IsFresh [] s h small f = f
start_all-IsFresh (now ∷ times) s h small f =
    let next : (start_session s now).0.incremental ≡ suc s.incremental =
      unfold start_session in (next-new_session now s.incremental (omega arith)) in
    start_all-IsFresh times (start_session s now).0 h.1 (omega (arith, next))
      (start_session-IsFresh s now h.0 (omega arith) f)

-- Of the sessions that a server with none has started one after another, at any times of ten digits, each
-- is what its own id finds, as long as the counter stays below
-- 4294967295.
pub start_all-found :
    (times : List ℕ) (s : Server)
    → s.sessions ≡ []
    → All IsTenDigits times
    → s.incremental + length times < 4294967295
    → All
        (λ (ses : Session). get_session (start_all times s) ses.id ≡ some ses)
        (start_all times s).sessions
start_all-found times s none_yet h small =
    let f = start_all-IsFresh times s h small (record {
      below = subst (All (IsBelow s.incremental)) (sym none_yet) tt;
      found = subst (All (λ (ses : Session). get_session s ses.id ≡ some ses)) (sym none_yet) tt;
    }) in
    f.found
