-- ===== src/Events/Features.antt =====
-- crates/kavach-events/src/events.rs: the feature matrix of the event window. SHA-256 and the type
-- `f32` are arguments.
use kavach_npu.Prelude.{ℕ, zero, suc, ◌-◌, ◌%◌, List, [], ◌∷◌, replicate, get_or}
use kavach_npu.Prelude.Float.{Float}
use kavach_npu.Events.Tracker.{
  CriticalEventId, logon_success, logon_failure, service_install, service_created,
  audit_log_cleared, power_shell_script_block, bug_check, SecurityEventRecord, EventSequenceTracker,
}

module _ (s : Float) (sha256 : List ℕ → List ℕ) where
  open s use {F, lit, of_nat, div, max, clamp}

  unfoldable pub severity_weight : CriticalEventId → F
  severity_weight logon_success = lit 1 1
  severity_weight logon_failure = lit 4 1
  severity_weight power_shell_script_block = lit 6 1
  severity_weight service_created = lit 8 1
  severity_weight service_install = lit 8 1
  severity_weight bug_check = lit 9 1
  severity_weight audit_log_cleared = lit 10 1

  -- One round of the loop: `prev_ts` is the time of the event before.
  abbrev pub event_row : ℕ → SecurityEventRecord → List F
  event_row prev_ts e =
      severity_weight e.event_id
      ∷ clamp (div (max (of_nat (e.timestamp_unix_ms - prev_ts)) (lit 0 1)) (lit 600000 1))
          (lit 0 1) (lit 10 1)
      ∷ div (of_nat (get_or (sha256 e.subject_user) 0 0)) (lit 2550 1)
      ∷ div (of_nat (e.process_id % 65536)) (lit 655360 1)
      ∷ []

  -- The rows of so many places: one for each event, and zeros behind them.
  unfoldable pub event_rows : ℕ → ℕ → List SecurityEventRecord → List (List F)
  event_rows zero prev_ts es = []
  event_rows (suc n) prev_ts [] = replicate 4 (lit 0 1) ∷ event_rows n prev_ts []
  event_rows (suc n) prev_ts (e ∷ es) = event_row prev_ts e ∷ event_rows n e.timestamp_unix_ms es

  abbrev first_ts : List SecurityEventRecord → ℕ
  first_ts [] = 0
  first_ts (e ∷ es) = e.timestamp_unix_ms

  unfoldable pub build_event_matrix : EventSequenceTracker → List (List F)
  build_event_matrix t = event_rows 16 (first_ts t.events) t.events
