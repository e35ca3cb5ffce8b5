-- ===== src/Sensors/PipeBroker.antt =====
-- crates/kavach-sensors/src/pipe_broker.rs: the server's handling of one frame, and the client's
-- reading of the one-byte answer. The lock around the broker makes calls of the server one after
-- the other; the pipe itself is not modelled.
pub mod Laws
use kavach_npu.Prelude.{ℕ, List, Result, ok, err, ◌==◌, if◌then◌else◌}
use kavach_npu.Core.Contracts.{
  Verdict, DispatchError, broker_unreachable, version_mismatch, replay_detected, malformed_message,
  authentication_failed, expired, action_denied,
}
use kavach_npu.Core.Wire.{WireError, dispatch_error, from_slice}
use kavach_npu.Firewall.Broker.{EnforcementBroker, EnforcedAction, evaluate_and_enforce}

-- `.map(|_| ())`
abbrev pub forget : Result DispatchError EnforcedAction → Result DispatchError (Unit {0})
forget (ok a) = ok tt
forget (err e) = err e

-- Where the frame does not decode the broker is not called.
unfoldable pub handle_frame :
    EnforcementBroker → List ℕ → ℕ → EnforcementBroker × Result DispatchError (Unit {0})
handle_frame b frame now_unix_ms = elim (from_slice frame) [
  | err e ↦ (b, err (dispatch_error e))
  | ok v ↦ let (b', result) = evaluate_and_enforce b v now_unix_ms in (b', forget result)
]

-- `match response[0] { .. }`
unfoldable pub read_response : ℕ → Result DispatchError (Unit {0})
read_response n =
    if n == 0
    then ok tt
    else if n == 1
    then err version_mismatch
    else if n == 2
    then err replay_detected
    else if n == 3
    then err malformed_message
    else if n == 4
    then err authentication_failed
    else if n == 5
    then err expired
    else if n == 6
    then err action_denied
    else err broker_unreachable
