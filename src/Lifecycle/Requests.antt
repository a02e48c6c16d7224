-- ===== src/Lifecycle/Requests.antt =====
-- The checks of a lifecycle request, before the ledger is read.
use subagent_governance.Base.{
  ℕ, Text, codes, is_text, Option, none, some, Bool, [], ◌∷◌, if◌then◌else◌, Result, ok, err, Error,
  guard, or_raise, ◌>>=◌, ◌>>◌,
}
use subagent_governance.Json.{Value, Fields, get, exact_fields}
use subagent_governance.Semantics.{
  Status, status_of, is_platform_observation, is_terminal_status, is_call_result,
  is_interrupt_result,
}

-- `_text(value, maximum)`
abbrev text_value : ℕ → Value → Option Text
text_value maximum (Value.str s) = if is_text maximum s then some s else none
text_value maximum _ = none

pub record Identity : Type 0 where
  pub task_id : Text
  pub task_ref : Text
  pub target : Text

-- `_identity`
unfoldable pub identity_of : Text → Fields → Result Identity
unfolding get
identity_of target_field fs = do
  task_id ← or_raise (text_value 256 (get (codes "task_id") fs)) Error.value_error
  task_ref ← or_raise (text_value 20 (get (codes "task_ref") fs)) Error.value_error
  target ← or_raise (text_value 1024 (get target_field fs)) Error.value_error
  ok (record { task_id = task_id; task_ref = task_ref; target = target })

-- The word under a key, which must be in the set. A list or a dictionary is not hashable.
unfoldable pub word_of : (Status → Bool) → Value → Result Status
word_of allowed (Value.str s) = do
  status ← or_raise (status_of s) Error.value_error
  guard (allowed status) Error.value_error
  ok status
word_of allowed (Value.arr vs) = err Error.type_error
word_of allowed (Value.obj fs) = err Error.type_error
word_of allowed _ = err Error.value_error

-- The fields, the identity and the word of a request.
unfoldable pub request : Text → Text → (Status → Bool) → Value → Result (Identity × Status)
unfolding identity_of word_of exact_fields get
request target_field word_field allowed value = do
  let wanted = codes "task_id" ∷ codes "task_ref" ∷ target_field ∷ word_field ∷ []
  fs ← or_raise (exact_fields wanted value) Error.value_error
  identity ← identity_of target_field fs
  status ← word_of allowed (get word_field fs)
  ok (identity, status)

abbrev pub observation_request : Value → Result (Identity × Status)
observation_request = request (codes "target") (codes "status") is_platform_observation

abbrev pub notification_request : Value → Result (Identity × Status)
notification_request = request (codes "sender") (codes "status") is_terminal_status

abbrev pub interrupt_request : Value → Result (Identity × Status)
interrupt_request = request (codes "target") (codes "result") is_interrupt_result

abbrev pub call_request : Value → Result (Identity × Status)
call_request = request (codes "target") (codes "result") is_call_result

pub record CloseRequest : Type 0 where
  pub task_id : Text
  pub task_ref : Text
  pub reason : Text

-- The checks of close_task.
unfoldable pub close_request : Value → Result CloseRequest
unfolding exact_fields get
close_request value = do
  let wanted = codes "task_id" ∷ codes "task_ref" ∷ codes "reason" ∷ []
  fs ← or_raise (exact_fields wanted value) Error.value_error
  task_id ← or_raise (text_value 256 (get (codes "task_id") fs)) Error.value_error
  task_ref ← or_raise (text_value 20 (get (codes "task_ref") fs)) Error.value_error
  reason ← or_raise (text_value 1024 (get (codes "reason") fs)) Error.value_error
  ok (record { task_id = task_id; task_ref = task_ref; reason = reason })
