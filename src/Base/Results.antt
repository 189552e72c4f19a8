-- ===== src/Base/Results.antt =====
-- Go's pair of a value and an error: an operation returns a value or fails with an error.

-- The errors that the services return or pass on, by what they mean; `runtime_panic` is a panic, which
-- ends the call.
pub data Failure : Type 0 where
  no_rows db_error unmarshal_error send_error publish_error : Failure
  event_not_found not_found already_exists permission_denied invalid_argument : Failure
  missing_event_selector invalid_event_selector : Failure
  missing_start_selector invalid_start_selector : Failure
  cache_miss load_error session_not_found session_expired : Failure
  runtime_panic : Failure

pub data Result {ℓ} (A : Type ℓ) : Type ℓ where
  done : A → Result A
  fail : Failure → Result A

-- `if err != nil { return err }`
abbrev pub and_then {ℓ κ} : {A : Type ℓ} {B : Type κ} → Result A → (A → Result B) → Result B
and_then (done a) f = f a
and_then (fail e) f = fail e
