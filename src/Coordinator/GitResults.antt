-- ===== src/Coordinator/GitResults.antt =====
-- `_git_result_for` of core/orchestration/use_cases/workflow_coordinator.py: which git result a
-- dependent step inherits.
use mad_edge.Prelude.{
  ℕ, zero, suc, ◌≤◌, ◌<◌, ◌≡◌, refl, ap, ◌∙◌, false, Option, none, some, List, [], ◌∷◌, String,
  length, str_eq, arith, take, take-all,
}
use mad_edge.Events.{GitResult}
use mad_edge.Coordinator.{Entry}
use mad_edge.Coordinator.Mounts.{last_of, git_results, git_result_for}

-- xs[n], if the list is that long.
abbrev pub get_elem? {ℓ} : {A : Type ℓ} → List A → ℕ → Option A
get_elem? [] n = none
get_elem? (x ∷ xs) zero = some x
get_elem? (x ∷ xs) (suc n) = get_elem? xs n

last_of-take :
    {A : Type 0} (n : ℕ) (xs : List A) → n < length xs → last_of (take (suc n) xs) ≡ get_elem? xs n
last_of-take n [] h = absurd (omega (arith, h))
last_of-take zero (x ∷ xs) h = refl
last_of-take (suc n) (x ∷ []) h = absurd (omega (arith, h))
last_of-take (suc n) (x ∷ y ∷ ys) h = last_of-take n (y ∷ ys) (omega (arith, h))

-- Of a session with an id, `_git_result_for` gives the latest git result in the log if there are at
-- most a hundred, and otherwise the hundredth from the oldest, whatever came after it.
pub git_result_for_lem :
    (log : List Entry) (session_id : String)
    → str_eq session_id "" ≡ false
    → (length (git_results session_id log) ≤ 100
        → git_result_for log (some session_id) ≡ last_of (git_results session_id log))
      × (100 < length (git_results session_id log)
          → git_result_for log (some session_id) ≡ get_elem? (git_results session_id log) 99)
unfolding git_result_for
git_result_for_lem log session_id h = (
  λ few. given ∙ ap last_of (take-all 100 rs few),
  λ many. given ∙ last_of-take 99 rs (omega (arith, many)),
)
  where
    rs : List GitResult
    rs = git_results session_id log

    given : git_result_for log (some session_id) ≡ last_of (take 100 rs)
    given = rw h refl
