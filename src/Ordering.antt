-- ===== src/Ordering.antt =====
-- core/orchestration/domain/ordering.py: priorities, and the order of dispatch across sessions.
pub mod Rounds
pub mod Fifo
pub mod Priority
pub mod Least
pub mod Tasks
use mad_edge.Prelude.{
  ℕ, zero, suc, ◌+◌, Bool, true, false, ◌&&◌, ◌||◌, Option, none, some, List, [], ◌∷◌, String,
  length, ltb, leb, ◌==◌, str_eq, str_ltb, if◌then◌else◌,
}
use mad_edge.Tasks.{Task}
use mad_edge.Sessions.{Session}

abbrev min_priority : ℕ
min_priority = 1

abbrev max_priority : ℕ
max_priority = 10

abbrev pub default_priority : ℕ
default_priority = 1

-- The values that `validate_priority` is called with: an int, by its sign, or anything else (a bool
-- is rejected as such).
pub data Given : Type 0 where
  int : ℕ → Given
  negative_int : ℕ → Given
  not_int : Given

-- `none` is InvalidPriority.
unfoldable pub validate_priority : Given → Option ℕ
validate_priority (int n) = if leb min_priority n && leb n max_priority then some n else none
validate_priority (negative_int n) = none
validate_priority not_int = none

-- A session that still has queued tasks: the task at its cursor, and those behind.
pub record Candidate : Type 0 where
  pub session_id : String
  pub priority : ℕ
  pub head : Task
  pub tail : List Task

abbrev pub tasks : Candidate → List Task
tasks c = c.head ∷ c.tail

-- The first loop: the sessions with a task in their queue.
unfoldable pub with_queue : Session → List Task → List Candidate → List Candidate
with_queue s [] rest = rest
with_queue s (t ∷ ts) rest =
    record { session_id = s.session_id; priority = s.priority; head = t; tail = ts } ∷ rest

unfoldable pub candidates : List Session → (String → List Task) → List Candidate
unfolding with_queue
candidates [] queued = []
candidates (s ∷ sessions) queued = with_queue s (queued s.session_id) (candidates sessions queued)

-- `c`'s key (-priority, created_at of the head, session id) is less than `d`'s.
unfoldable pub key_ltb : Candidate → Candidate → Bool
key_ltb c d =
    ltb d.priority c.priority
    || (c.priority == d.priority
        && (ltb c.head.created_at d.head.created_at
            || (c.head.created_at == d.head.created_at && str_ltb c.session_id d.session_id)))

-- `min(remaining, key=…)`: the first candidate of least key.
unfoldable pub best_of : Candidate → List Candidate → Candidate
unfolding key_ltb
best_of b [] = b
best_of b (c ∷ cs) = best_of (if key_ltb c b then c else b) cs

-- The cursor of a session moves on; a session with no task left leaves.
unfoldable pub move_on : Candidate → List Candidate → List Candidate
move_on c rest = elim c.tail [ [] ↦ rest | t ∷ ts ↦ record c { head = t; tail = ts } ∷ rest ]

unfoldable pub advance : String → List Candidate → List Candidate
unfolding move_on
advance sid [] = []
advance sid (c ∷ cs) = if str_eq c.session_id sid then move_on c cs else c ∷ advance sid cs

-- The loop `while remaining`, on fuel.
unfoldable pub drain : ℕ → List Candidate → List Task
unfolding best_of advance
drain zero cs = []
drain (suc fuel) [] = []
drain (suc fuel) (c ∷ cs) =
    let best = best_of c cs in best.head ∷ drain fuel (advance best.session_id (c ∷ cs))

-- The tasks that are left, each of which takes one round.
unfoldable pub task_count : List Candidate → ℕ
task_count [] = 0
task_count (c ∷ cs) = length (tasks c) + task_count cs

unfoldable pub order_ready_candidates : List Session → (String → List Task) → List Task
unfolding candidates drain task_count
order_ready_candidates eligible_sessions queued =
    let cs = candidates eligible_sessions queued in drain (task_count cs) cs
