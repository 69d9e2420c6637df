-- ===== src/Coordinator/Urls.antt =====
-- `_resolve_repo_url` of core/orchestration/use_cases/workflow_coordinator.py, on the workflows that
-- `validate_workflow` accepts.
use mad_edge.Prelude.{
  ℕ, zero, suc, ◌+◌, ◌≤◌, ◌≡◌, ◌≢◌, refl, sym, ap, subst, ◌∙◌, Bool, true, false, not, Option, none,
  some, List, [], ◌∷◌, String, elem, length, map, str_eq, str_eq_refl, str_eq-cases, Bool-cases,
  Member, inl, inr, arith, if◌then◌else◌,
}
use mad_edge.Prelude.Pigeonhole.{IsApart, pigeonhole}
use mad_edge.Workflow.{WorkflowMount, WorkflowStep, is_github}
use mad_edge.Workflow.Validate.{find_step}
use mad_edge.Workflow.Validate.Acyclic.{Chain, one, cons, DependsOn}
use mad_edge.Workflow.Validate.Accepted.{IsValid}
use mad_edge.Workflow.Validate.Mounts.{find_step-Member}
use mad_edge.Coordinator.Mounts.{
  Inherited, repo, too_deep, given_url, url_of_mounts, url_of_step, resolve_repo_url, url_fuel,
}

-- Two ways to resolve agree on a step, and come to an end.
abbrev Agree : (String → Inherited) → (String → Inherited) → String → Type 0
Agree r q sid = (r sid ≡ q sid) × (r sid ≢ too_deep)

-- If they do on what the mounts inherit from, they do on the mounts.
url_of_mounts-Agree :
    (r q : String → Inherited) (ms : List WorkflowMount)
    → ((m : WorkflowMount) (from_step : String)
        → Member m ms
        → m.from_step ≡ some from_step
        → Agree r q from_step)
    → (url_of_mounts r ms ≡ url_of_mounts q ms) × (url_of_mounts r ms ≢ too_deep)
unfolding url_of_mounts
url_of_mounts-Agree r q [] h = (refl, λ e. cc)
url_of_mounts-Agree r q (m ∷ ms) h =
    go (not (is_github m)) (given_url m.url) m.from_step refl
      (url_of_mounts-Agree r q ms (λ x f k. h x f (inr k)))
  where
    pick : (String → Inherited) → Bool → Option String → Option String → Inherited
    pick r b u f = if b then url_of_mounts r ms else elim u [
      | some url ↦ repo url
      | none ↦ elim f [ some from_step ↦ r from_step | none ↦ url_of_mounts r ms ]
    ]

    go :
        (b : Bool) (u f : Option String)
        → m.from_step ≡ f
        → (url_of_mounts r ms ≡ url_of_mounts q ms) × (url_of_mounts r ms ≢ too_deep)
        → (pick r b u f ≡ pick q b u f) × (pick r b u f ≢ too_deep)
    go true u f e ih = ih
    go false (some url) f e ih = (refl, λ e. cc)
    go false none (some from_step) e ih = h m from_step (inl refl) e
    go false none none e ih = ih

ids_of : List WorkflowStep → List String
ids_of steps = map (λ s. s.step_id) steps

Member-ids_of :
    (steps : List WorkflowStep) (s : WorkflowStep) (n : String)
    → Member s steps
    → s.step_id ≡ n
    → elem n (ids_of steps) ≡ true
unfolding ids_of
Member-ids_of [] s n m e = absurd m
Member-ids_of (t ∷ steps) s n (inl same) e =
    let q : str_eq t.step_id n ≡ true =
      subst (λ k. str_eq t.step_id k ≡ true) (ap (λ x. x.step_id) (sym same) ∙ e)
        (str_eq_refl t.step_id) in
    ground arith
Member-ids_of (t ∷ steps) s n (inr m) e = ground (arith, Member-ids_of steps s n m e)

length-ids_of : (steps : List WorkflowStep) → url_fuel steps ≡ suc (length (ids_of steps))
unfolding ids_of
length-ids_of [] = refl
length-ids_of (s ∷ steps) = ap (λ n. suc n) (length-ids_of steps)

Chain-snoc : {E : String → String → Type 0} (a b c : String) → Chain E a b → E b c → Chain E a c
Chain-snoc a b c (one e) f = cons e (one f)
Chain-snoc a b c (cons {b = m} e rest) f = cons e (Chain-snoc m b c rest f)

module _ (steps : List WorkflowStep) (valid : IsValid steps) where
  stable :
      (fuel more : ℕ) (path : List String) (sid : String)
      → IsApart path
      → ((z : String) → elem z path ≡ true → elem z (ids_of steps) ≡ true)
      → ((z : String) → elem z path ≡ true → Chain (DependsOn steps) z sid)
      → suc (length (ids_of steps)) ≤ length path + fuel
      → fuel ≤ more
      → Agree (resolve_repo_url fuel steps) (resolve_repo_url more steps) sid
  unfolding resolve_repo_url
  stable zero more path sid d known leads enough le =
      absurd (omega (arith, pigeonhole path (ids_of steps) d known, enough))
  stable (suc fuel) zero path sid d known leads enough le = absurd (omega (arith, le))
  stable (suc fuel) (suc more) path sid d known leads enough le =
      go (find_step sid steps) refl (stable fuel more)
    where
      go :
          (k : Option WorkflowStep)
          → find_step sid steps ≡ k
          → ((p : List String) (s : String)
              → IsApart p
              → ((z : String) → elem z p ≡ true → elem z (ids_of steps) ≡ true)
              → ((z : String) → elem z p ≡ true → Chain (DependsOn steps) z s)
              → suc (length (ids_of steps)) ≤ length p + fuel
              → fuel ≤ more
              → Agree (resolve_repo_url fuel steps) (resolve_repo_url more steps) s)
          → (url_of_step (resolve_repo_url fuel steps) k
              ≡ url_of_step (resolve_repo_url more steps) k)
            × (url_of_step (resolve_repo_url fuel steps) k ≢ too_deep)
      go none q ih = (refl, λ e. cc)
      go (some step) q ih =
          let (m, same) = find_step-Member sid steps step q in
          url_of_mounts-Agree (resolve_repo_url fuel steps) (resolve_repo_url more steps)
            step.mounts
            (λ mount from_step here e.
              let deps = ((valid.mounts step mount m here).1 from_step e).2 in
              next from_step (step, m, same, deps) (Member-ids_of steps step sid m same))
        where
          new : elem sid path ≡ false
          new = elim (Bool-cases (elem sid path)) [
            | inl e ↦ absurd (valid.acyclic sid (leads sid e))
            | inr e ↦ e
          ]

          next :
              (f : String)
              → DependsOn steps sid f
              → elem sid (ids_of steps) ≡ true
              → Agree (resolve_repo_url fuel steps) (resolve_repo_url more steps) f
          next f dep here =
              ih (sid ∷ path) f (new, d)
                (λ z e. elim (str_eq-cases sid z) [
                  | inl (q, same) ↦ subst (λ k. elem k (ids_of steps) ≡ true) same here
                  | inr (q, other) ↦ known z (ground arith)
                ])
                (λ z e. elim (str_eq-cases sid z) [
                  | inl (q, same) ↦ subst (λ k. Chain (DependsOn steps) k f) same (one dep)
                  | inr (q, other) ↦ Chain-snoc z sid f (leads z (ground arith)) dep
                ])
                (omega (arith, enough)) (omega (arith, le))

  -- In a valid workflow the chain of steps that `_resolve_repo_url` follows comes to an end, at a URL
  -- or at `None`, within one step more than the workflow has; allowing more changes nothing.
  pub resolve_repo_url_lem :
      (more : ℕ) (step_id : String)
      → url_fuel steps ≤ more
      → (resolve_repo_url (url_fuel steps) steps step_id ≢ too_deep)
        × (resolve_repo_url (url_fuel steps) steps step_id ≡ resolve_repo_url more steps step_id)
  resolve_repo_url_lem more step_id le =
      let (same, ends) =
        stable (url_fuel steps) more [] step_id tt (λ z e. absurd (ground arith))
          (λ z e. absurd (ground arith)) (omega (arith, length-ids_of steps)) le in
      (ends, same)
