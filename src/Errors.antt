-- ===== src/Errors.antt =====
-- cairnq-py/cairnq/errors.py: the errors that the operations raise, the JSON error envelope, and the
-- classifier that turns whatever ended an attempt into an envelope.
use Prim.Native.String.{String}
use cairnq.Prelude.{
  ◌≡◌, refl, ◌⊎◌, inl, inr, ℕ, Bool, true, false, Option, none, some, Text, Json, Value, get_or,
}
use cairnq.Models.{Task}

-- The dictionary `{type, code, message, retryable, details}`; a dictionary that a handler made
-- itself may lack any of the keys.
pub record Envelope : Type 0 where
  pub type : Option String
  pub code : Option String
  pub message : Option String
  pub retryable : Option Bool
  pub details : Option Value

-- The empty dictionary.
abbrev pub empty_details : Value
empty_details = 0

abbrev pub error_envelope : String → String → String → Bool → Option Value → Envelope
error_envelope type code message retryable details = record {
  type = some type;
  code = some code;
  message = some message;
  retryable = some retryable;
  details = some (get_or details empty_details);
}

pub data Error : Type 0 where
  value_error : Error
  already_exists : Text → Error
  queue_full : Text → ℕ → ℕ → Error
  task_timeout : Text → Option Task → Option Text → Error
  task_failed : Option Json → Error
  task_canceled : Text → Error
  lost_lease : Text → Error
  protocol_version_mismatch : Error
  unsupported_backend : Error
  integrity_error : Error
  serialization_error : Error
  -- an error of the database or of the caller's own code
  other_error : Text → Error

-- `TaskError`, as a handler raises it or `ctx.fail` is given one.
pub record TaskError : Type 0 where
  pub message : String
  pub code : String
  pub retryable : Bool
  pub type : String
  pub details : Option Value

-- `TaskError(str(error), retryable=retryable)`: the constructor's defaults.
abbrev pub bare_task_error : String → Bool → TaskError
bare_task_error message retryable = record {
  message = message;
  code = "task_error";
  retryable = retryable;
  type = "TaskError";
  details = none;
}

abbrev pub task_error_envelope : TaskError → Envelope
task_error_envelope e = error_envelope e.type e.code e.message e.retryable e.details

abbrev pub exception_envelope : String → String → Bool → Envelope
exception_envelope class_name message retryable =
    error_envelope class_name "handler_error" message retryable none

-- What can end a task: a `TaskError`, another exception (its class name and text), a ready envelope,
-- or a bare reason.
pub data Reason : Type 0 where
  task_error : TaskError → Reason
  exception : String → String → Reason
  envelope : Envelope → Reason
  bare : String → Reason

unfoldable pub as_envelope : Reason → Bool → Envelope × Bool
as_envelope (task_error e) retryable = (task_error_envelope e, e.retryable)
as_envelope (exception class_name message) retryable =
    (exception_envelope class_name message retryable, retryable)
as_envelope (envelope e) retryable = (e, retryable)
as_envelope (bare reason) retryable =
    (task_error_envelope (bare_task_error reason retryable), retryable)

pub data Result {ℓ} (A : Type ℓ) : Type ℓ where
  ok : A → Result A
  raise : Error → Result A

infixl 5 ◌>>=◌ ◌>>◌
abbrev pub ◌>>=◌ {ℓ κ} : {A : Type ℓ} {B : Type κ} → Result A → (A → Result B) → Result B
ok a >>= f = f a
raise e >>= f = raise e

abbrev pub ◌>>◌ {ℓ} : {B : Type ℓ} → Result (Unit {0}) → Result B → Result B
m >> k = m >>= λ _. k

-- `if test: raise e`
abbrev pub raise_if : Bool → Error → Result (Unit {0})
raise_if true e = raise e
raise_if false e = ok tt

-- The JSON encoder (`json.JSONEncoder` of the standard library) behind `dump_json`: `none` is its
-- `TypeError` or `ValueError`.
pub record Codec : Type 0 where
  pub encode : Value → Option Json
  pub encode_envelope : Envelope → Option Json

pub Result-cases {ℓ} :
    {A : Type ℓ} (r : Result A) → ((a : A) × (r ≡ ok a)) ⊎ ((e : Error) × (r ≡ raise e))
Result-cases (ok a) = inl (a, refl)
Result-cases (raise e) = inr (e, refl)
