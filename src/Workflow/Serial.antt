-- ===== src/Workflow/Serial.antt =====
-- core/orchestration/domain/workflow.py, "Serialization": the payload of `workflow.created`. The
-- readers are `none` on a missing required key and on a value of another type than the records'
-- fields have, which the program never writes.
use mad_edge.Prelude.{ℕ, ◌≡◌, refl, Option, none, some, List, [], ◌∷◌, String}
use mad_edge.Json.{
  Json, text, arr, obj, Items, nil, cons, Fields, end, field, get, ◌>>=◌, text_or_null, num_or_null,
  read_text, read_text_or, read_optional, read_number, read_items, read_fields,
}
use mad_edge.Workflow.{WorkflowMount, WorkflowStep, github}

abbrev mount_fields : WorkflowMount → Fields
mount_fields mount = field "mount_path" (text mount.mount_path) (
    field "type" (text mount.type) (
      field "url" (text_or_null mount.url) (
        field "from_step" (text_or_null mount.from_step)
          (field "ref" (text mount.ref) (field "content" (text mount.content) end)))))

unfoldable mount_to_dict : WorkflowMount → Json
mount_to_dict mount = obj (mount_fields mount)

abbrev mounts_to_items : List WorkflowMount → Items
mounts_to_items [] = nil
mounts_to_items (m ∷ ms) = cons (mount_to_dict m) (mounts_to_items ms)

abbrev texts_to_items : List String → Items
texts_to_items [] = nil
texts_to_items (s ∷ ss) = cons (text s) (texts_to_items ss)

unfoldable step_to_dict : WorkflowStep → Json
unfolding mount_to_dict
step_to_dict step = obj (
    field "step_id" (text step.step_id) (
      field "agent" (obj step.agent) (
        field "prompt" (text step.prompt) (
          field "mounts" (arr (mounts_to_items step.mounts)) (
            field "depends_on" (arr (texts_to_items step.depends_on)) (
              field "base_branch" (text_or_null step.base_branch) (
                field "working_directory" (text_or_null step.working_directory) (
                  field "model" (text_or_null step.model) (
                    field "effort" (text_or_null step.effort)
                      (field "timeout_s" (num_or_null step.timeout_s) end))))))))))

abbrev steps_to_items : List WorkflowStep → Items
steps_to_items [] = nil
steps_to_items (s ∷ ss) = cons (step_to_dict s) (steps_to_items ss)

unfoldable pub workflow_to_created_data : String → List WorkflowStep → Fields
unfolding step_to_dict
workflow_to_created_data workflow_id steps =
    field "workflow_id" (text workflow_id) (field "steps" (arr (steps_to_items steps)) end)

unfoldable mount_from_dict : Json → Option WorkflowMount
unfolding get read_text read_text_or read_optional
mount_from_dict (obj raw) = do
  mount_path ← read_text (get "mount_path" raw)
  type ← read_text_or github (get "type" raw)
  url ← read_optional (get "url" raw)
  from_step ← read_optional (get "from_step" raw)
  ref ← read_text_or "sha" (get "ref" raw)
  content ← read_text_or "" (get "content" raw)
  some (record {
    mount_path = mount_path;
    type = type;
    url = url;
    from_step = from_step;
    ref = ref;
    content = content;
  })
mount_from_dict _ = none

abbrev mounts_from_items : Items → Option (List WorkflowMount)
mounts_from_items nil = some []
mounts_from_items (cons j is) = do
  mount ← mount_from_dict j
  mounts ← mounts_from_items is
  some (mount ∷ mounts)

abbrev texts_from_items : Items → Option (List String)
texts_from_items nil = some []
texts_from_items (cons j is) = do s ← read_text (some j); ss ← texts_from_items is; some (s ∷ ss)

unfoldable step_from_dict : Json → Option WorkflowStep
unfolding get read_text read_text_or read_optional read_number read_items read_fields
    mount_from_dict
step_from_dict (obj raw) = do
  step_id ← read_text (get "step_id" raw)
  agent ← read_fields (get "agent" raw)
  prompt ← read_text_or "" (get "prompt" raw)
  mounts ← read_items (get "mounts" raw) >>= mounts_from_items
  depends_on ← read_items (get "depends_on" raw) >>= texts_from_items
  base_branch ← read_optional (get "base_branch" raw)
  working_directory ← read_optional (get "working_directory" raw)
  model ← read_optional (get "model" raw)
  effort ← read_optional (get "effort" raw)
  timeout_s ← read_number (get "timeout_s" raw)
  some (record {
    step_id = step_id;
    agent = agent;
    prompt = prompt;
    mounts = mounts;
    depends_on = depends_on;
    base_branch = base_branch;
    working_directory = working_directory;
    model = model;
    effort = effort;
    timeout_s = timeout_s;
  })
step_from_dict _ = none

abbrev steps_from_items : Items → Option (List WorkflowStep)
steps_from_items nil = some []
steps_from_items (cons j is) = do
  step ← step_from_dict j
  steps ← steps_from_items is
  some (step ∷ steps)

unfoldable pub steps_from_created_data : Fields → Option (List WorkflowStep)
unfolding get read_items step_from_dict
steps_from_created_data raw = read_items (get "steps" raw) >>= steps_from_items

read_optional-text_or_null : (s : Option String) → read_optional (some (text_or_null s)) ≡ some s
unfolding read_optional
read_optional-text_or_null none = refl
read_optional-text_or_null (some s) = refl

read_number-num_or_null : (n : Option ℕ) → read_number (some (num_or_null n)) ≡ some n
unfolding read_number
read_number-num_or_null none = refl
read_number-num_or_null (some n) = refl

mount_from_dict-mount_to_dict : (m : WorkflowMount) → mount_from_dict (mount_to_dict m) ≡ some m
unfolding mount_from_dict mount_to_dict get read_text read_text_or
mount_from_dict-mount_to_dict m =
    rw (read_optional-text_or_null m.url, read_optional-text_or_null m.from_step) refl

mounts_from_items-mounts_to_items :
    (ms : List WorkflowMount) → mounts_from_items (mounts_to_items ms) ≡ some ms
mounts_from_items-mounts_to_items [] = refl
mounts_from_items-mounts_to_items (m ∷ ms) =
    rw (mount_from_dict-mount_to_dict m, mounts_from_items-mounts_to_items ms) refl

texts_from_items-texts_to_items :
    (ss : List String) → texts_from_items (texts_to_items ss) ≡ some ss
unfolding read_text
texts_from_items-texts_to_items [] = refl
texts_from_items-texts_to_items (s ∷ ss) = rw (texts_from_items-texts_to_items ss) refl

step_from_dict-step_to_dict : (s : WorkflowStep) → step_from_dict (step_to_dict s) ≡ some s
unfolding step_from_dict step_to_dict get read_text read_text_or read_items read_fields
step_from_dict-step_to_dict s =
    rw
      (
        read_optional-text_or_null s.base_branch,
        read_optional-text_or_null s.working_directory,
        read_optional-text_or_null s.model,
        read_optional-text_or_null s.effort,
        read_number-num_or_null s.timeout_s,
        mounts_from_items-mounts_to_items s.mounts,
        texts_from_items-texts_to_items s.depends_on,
      )
      refl

steps_from_items-steps_to_items :
    (ss : List WorkflowStep) → steps_from_items (steps_to_items ss) ≡ some ss
steps_from_items-steps_to_items [] = refl
steps_from_items-steps_to_items (s ∷ ss) =
    rw (step_from_dict-step_to_dict s, steps_from_items-steps_to_items ss) refl

-- The steps read from the payload of `workflow.created` are those that it was made from, for every
-- workflow id and all steps: the round trip loses nothing.
pub steps_from_created_data-workflow_to_created_data :
    (workflow_id : String) (steps : List WorkflowStep)
    → steps_from_created_data (workflow_to_created_data workflow_id steps) ≡ some steps
unfolding steps_from_created_data workflow_to_created_data get read_items
steps_from_created_data-workflow_to_created_data workflow_id steps =
    steps_from_items-steps_to_items steps
