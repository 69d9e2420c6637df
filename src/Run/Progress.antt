-- ===== src/Run/Progress.antt =====
-- The loop of `_run_task`, of core/orchestration/use_cases/dispatcher.py: its invariant, and what is said
-- of a finished run.
use mad_edge.Prelude.{
  ℕ, zero, suc, ◌+◌, ◌≤◌, ◌<◌, ◌≡◌, refl, ap, Option, List, [], ◌∷◌, ◌++◌, String, arith,
}
use mad_edge.Tasks.{ConversationMode, resume, Task}
use mad_edge.Events.{
  Body, task_retrying, task_deferred, task_completed, task_failed, task_git_result,
}
use mad_edge.Run.{cumulative_ceiling, RunState, Next, return, continue, start_run, run_fuel}
use mad_edge.Run.Schedule.{least_wait}

-- The events are the retries numbered from `k + 1` to `n`.
abbrev Numbered : ℕ → ℕ → List Body → ℕ → Type 0
Numbered id k [] n = k ≡ n
Numbered id k (task_retrying i a w r ∷ bs) n = (i ≡ id) × (a ≡ k + 1) × Numbered id (k + 1) bs n
Numbered id k (_ ∷ bs) n = ⊥

abbrev total_wait : List Body → ℕ
total_wait [] = 0
total_wait (task_retrying i a w r ∷ bs) = w + total_wait bs
total_wait (_ ∷ bs) = total_wait bs

-- The events that end a run: completed, perhaps with the git state behind it, or failed, or deferred.
abbrev pub IsEnding : ℕ → List Body → Type 0
IsEnding id (task_completed i ∷ []) = i ≡ id
IsEnding id (task_completed i ∷ task_git_result j git ∷ []) = (i ≡ id) × (j ≡ id)
IsEnding id (task_failed i reason ∷ []) = i ≡ id
IsEnding id (task_deferred i reason at ∷ []) = i ≡ id
IsEnding id _ = ⊥

abbrev pub resumes : ℕ → List ConversationMode
resumes zero = []
resumes (suc n) = resume ∷ resumes n

-- The launches of the first attempts, and the mode of the next one.
abbrev pub launches_upto : ConversationMode → ℕ → List ConversationMode
launches_upto mode zero = []
launches_upto mode (suc n) = mode ∷ resumes n

abbrev mode_at : ConversationMode → ℕ → ConversationMode
mode_at mode zero = mode
mode_at mode (suc n) = resume

pub record Inv (id : ℕ) (mode : ConversationMode) (st : RunState) : Type 0 where
  pub waited : least_wait st.attempt ≤ st.cumulative_wait
  pub below : st.cumulative_wait < cumulative_ceiling
  pub counted : total_wait st.emitted ≡ st.cumulative_wait
  pub numbered : Numbered id 0 st.emitted st.attempt
  pub launched : st.launches ≡ launches_upto mode st.attempt
  pub next_mode : st.mode ≡ mode_at mode st.attempt

-- What holds of a finished run: some retries, numbered in order, that waited less than the ceiling in
-- all; then one ending; and one launch in the task's own mode, with all later ones resuming.
pub record IsFinished (id : ℕ) (mode : ConversationMode) (st : RunState) : Type 0 where
  pub retries : List Body
  pub ending : List Body
  pub attempts : ℕ
  pub relaunches : ℕ
  pub emitted_is : st.emitted ≡ retries ++ ending
  pub numbered : Numbered id 0 retries attempts
  pub waited : total_wait retries < cumulative_ceiling
  pub ends : IsEnding id ending
  pub launches_are : st.launches ≡ mode ∷ resumes relaunches
  pub bounded : relaunches < run_fuel

pub Numbered-snoc :
    (id k n w : ℕ) (bs : List Body) (reason : String)
    → Numbered id k bs n
    → Numbered id k (bs ++ task_retrying id (n + 1) w reason ∷ []) (n + 1)
Numbered-snoc id k n w [] reason h = (refl, omega arith, omega arith)
Numbered-snoc id k n w (task_retrying i a v r ∷ bs) reason h =
    (h.0, h.1, Numbered-snoc id (k + 1) n w bs reason h.2)
Numbered-snoc id k n w (_ ∷ bs) reason h = absurd h

pub total_wait-snoc :
    (bs : List Body) (i a w : ℕ) (r : String)
    → total_wait (bs ++ task_retrying i a w r ∷ []) ≡ total_wait bs + w
total_wait-snoc [] i a w r = omega arith
total_wait-snoc (task_retrying j b v s ∷ bs) i a w r = omega (arith, total_wait-snoc bs i a w r)
total_wait-snoc (_ ∷ bs) i a w r = total_wait-snoc bs i a w r

resumes-snoc : (n : ℕ) → resumes n ++ resume ∷ [] ≡ resumes (suc n)
resumes-snoc zero = refl
resumes-snoc (suc n) = ap (λ l. resume ∷ l) (resumes-snoc n)

pub launches_upto-suc :
    (mode : ConversationMode) (n : ℕ)
    → launches_upto mode n ++ mode_at mode n ∷ [] ≡ launches_upto mode (suc n)
launches_upto-suc mode zero = refl
launches_upto-suc mode (suc n) = ap (λ l. mode ∷ l) (resumes-snoc n)

pub start-Inv :
    (task : Task) (last : Option String)
    → Inv task.task_id task.conversation_mode (start_run task last)
unfolding start_run least_wait
start-Inv task last = record {
  waited = omega arith;
  below = omega arith;
  counted = refl;
  numbered = refl;
  launched = refl;
  next_mode = refl;
}

-- What a round leads to, from a state at attempt `n`.
abbrev pub Verdict : ℕ → ConversationMode → ℕ → Next → Type 0
Verdict id mode n (return st) = IsFinished id mode st
Verdict id mode n (continue st) = Inv id mode st × (st.attempt ≡ n + 1)
