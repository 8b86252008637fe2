-- ===== src/Server/Threads.antt =====
-- `CServer::run`, `runNode`, `removeNode` and `stop`: the accept loop and its threads as steps. The code
-- takes no lock: `ThreadCount++` and `ThreadCount--` are a step that reads and a step that writes. An
-- operation on the vector `Nodes` is one step.
pub mod Bound
pub mod Limit
pub mod Returns
pub mod Stuck
use solusek.Base.{
  ℕ, suc, length, ◌≤◌, ◌+◌, ◌-◌, ◌%◌, Bool, true, false, List, [], ◌∷◌, ◌++◌, ◌≡◌, ◌==◌, ltb,
  if◌then◌else◌, u32_mod,
}

-- Where the accept loop stands.
pub data Phase : Type 0 where
  -- At `while (!StopSignal)`.
  top : Phase
  -- At `while (ThreadCount > ThreadLimit)`.
  checking : Phase
  -- In `accept`.
  accepting : Phase
  -- Within `ThreadCount++`, with what it has read.
  counting : ℕ → Phase
  -- Behind `ThreadCount++`.
  counted : Phase
  -- At `while (Nodes.size() > 0)`; the number is what the `break` left counted.
  draining : ℕ → Phase
  returned : ℕ → Phase

pub record State : Type 0 where
  pub phase : Phase
  pub stop_signal : Bool
  pub thread_limit : ℕ
  pub thread_count : ℕ
  pub next_id : ℕ
  -- The threads before `Nodes.push_back`, by id.
  pub starting : List ℕ
  pub nodes : List ℕ
  -- How many threads are between `removeNode` and `ThreadCount--`.
  pub leaving : ℕ
  -- What the threads within `ThreadCount--` have read.
  pub holding : List ℕ
  -- How many times `TH.create` has made no thread.
  pub failed : ℕ

-- `SOLUSEK_DEFAULT_THREAD_LIMIT`
abbrev pub default_thread_limit : ℕ
default_thread_limit = 25

-- Before the loop.
abbrev pub initial : ℕ → State
initial limit = record {
  phase = top;
  stop_signal = false;
  thread_limit = limit;
  thread_count = 0;
  next_id = 0;
  starting = [];
  nodes = [];
  leaving = 0;
  holding = [];
  failed = 0;
}

-- `ThreadCount++` and `ThreadCount--` on an `unsigned int`.
abbrev pub count_up : ℕ → ℕ
count_up n = (n + 1) % u32_mod

abbrev pub count_down : ℕ → ℕ
count_down n = (n + (u32_mod - 1)) % u32_mod

-- `removeNode`
unfoldable pub remove_node : ℕ → List ℕ → List ℕ
remove_node id [] = []
remove_node id (n ∷ nodes) = if n == id then nodes else n ∷ remove_node id nodes

pub data Step : State → State → Type 0 where
  -- The accept loop.
  enter :
      (s : State) → s.phase ≡ top → s.stop_signal ≡ false → Step s (record s { phase = checking })
  leave :
      (s : State) → s.phase ≡ top → s.stop_signal ≡ true → Step s (record s { phase = draining 0 })
  pass :
      (s : State)
      → s.phase ≡ checking
      → ltb s.thread_limit s.thread_count ≡ false
      → Step s (record s { phase = accepting })
  read_up :
      (s : State) → s.phase ≡ accepting → Step s (record s { phase = counting s.thread_count })
  write_up :
      (s : State) (n : ℕ)
      → s.phase ≡ counting n
      → Step s (record s { phase = counted; thread_count = count_up n })
  break :
      (s : State)
      → s.phase ≡ counted
      → s.stop_signal ≡ true
      → Step s (record s { phase = draining 1 })
  create :
      (s : State)
      → s.phase ≡ counted
      → s.stop_signal ≡ false
      → Step s
          (record s { phase = top; next_id = suc s.next_id; starting = s.next_id ∷ s.starting })
  -- The result of `TH.create` is not read.
  fail :
      (s : State)
      → s.phase ≡ counted
      → s.stop_signal ≡ false
      → Step s (record s { phase = top; failed = suc s.failed })
  drained :
      (s : State) (k : ℕ)
      → s.phase ≡ draining k
      → s.nodes ≡ []
      → Step s (record s { phase = returned k })
  -- A thread: `Nodes.push_back`, `removeNode` at the end of `CNode::run`, `ThreadCount--`.
  push :
      (s : State) (id : ℕ) (before behind : List ℕ)
      → s.starting ≡ before ++ id ∷ behind
      → Step s (record s { starting = before ++ behind; nodes = s.nodes ++ id ∷ [] })
  remove :
      (s : State) (id : ℕ) (before behind : List ℕ)
      → s.nodes ≡ before ++ id ∷ behind
      → Step s (record s { nodes = remove_node id s.nodes; leaving = suc s.leaving })
  read_down :
      (s : State) (n : ℕ)
      → s.leaving ≡ suc n
      → Step s (record s { leaving = n; holding = s.thread_count ∷ s.holding })
  write_down :
      (s : State) (v : ℕ) (before behind : List ℕ)
      → s.holding ≡ before ++ v ∷ behind
      → Step s (record s { holding = before ++ behind; thread_count = count_down v })
  -- `stop`, from anywhere.
  stop : (s : State) → Step s (record s { stop_signal = true })

pub data Reach (s : State) : State → Type 0 where
  here : Reach s s
  more : {t u : State} → Reach s t → Step t u → Reach s u

-- How many are between reading `ThreadCount` and writing it.
abbrev pub reading : Phase → ℕ
reading top = 0
reading checking = 0
reading accepting = 0
reading (counting n) = 1
reading counted = 0
reading (draining k) = 0
reading (returned k) = 0

abbrev pub holders : State → ℕ
holders s = reading s.phase + length s.holding

-- What can be reached with no two changes of `ThreadCount` overlapping, as under a lock.
pub data Apart (s : State) : State → Type 0 where
  alone : Apart s s
  step : {t u : State} → Apart s t → Step t u → holders u ≤ 1 → Apart s u
