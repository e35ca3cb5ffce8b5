-- ===== src/Events/Tracker.antt =====
-- crates/kavach-events/src/events.rs: the window of 16 events and the patterns found in it.
-- SHA-256 is an argument. A string is the list of its bytes.
pub mod Laws
pub mod Alerts
use kavach_npu.Prelude.{
  ℕ, ◌-◌, ◌≡◌, ◌↔◌, refl, Bool, true, false, ◌&&◌, ◌||◌, List, [], ◌∷◌, ◌++◌, Option, none, some,
  leb, ◌==◌, if◌then◌else◌, length, drop, filter, arith,
}
use kavach_npu.Prelude.Bytes.{bytes_eq, be_bytes}
use kavach_npu.Core.Contracts.{EnforcementAction, alert}

abbrev pub event_sequence_window_size : ℕ
event_sequence_window_size = 16

pub data CriticalEventId : Type 0 where
  logon_success logon_failure service_install service_created : CriticalEventId
  audit_log_cleared power_shell_script_block bug_check : CriticalEventId

-- `event_id as u32`: the declared discriminants.
unfoldable pub event_number : CriticalEventId → ℕ
event_number logon_success = 4624
event_number logon_failure = 4625
event_number service_install = 7045
event_number service_created = 4697
event_number audit_log_cleared = 1102
event_number power_shell_script_block = 4104
event_number bug_check = 1001

unfoldable pub from_u32 : ℕ → Option CriticalEventId
from_u32 val =
    if val == 4624
    then some logon_success
    else if val == 4625
    then some logon_failure
    else if val == 7045
    then some service_install
    else if val == 4697
    then some service_created
    else if val == 1102
    then some audit_log_cleared
    else if val == 4104
    then some power_shell_script_block
    else if val == 1001
    then some bug_check
    else none

-- The derived `PartialEq`.
unfoldable pub id_eq : CriticalEventId → CriticalEventId → Bool
id_eq a b = event_number a == event_number b

pub record SecurityEventRecord : Type 0 where
  pub event_id : CriticalEventId
  pub timestamp_unix_ms : ℕ
  pub process_id : ℕ
  pub subject_user : List ℕ
  pub target_resource : List ℕ

pub data CorrelationPattern : Type 0 where
  brute_force_compromised : (username : List ℕ) (failed_count : ℕ) → CorrelationPattern
  persistence_service_installed : (service_name : List ℕ) → CorrelationPattern
  audit_log_tampering : CorrelationPattern
  suspicious_script_execution : (process_id : ℕ) → CorrelationPattern

pub record EventAnomalyAlert : Type 0 where
  pub pattern : CorrelationPattern
  pub timestamp_ms : ℕ
  pub recommended_action : EnforcementAction
  pub corroborating_evidence_count : ℕ
  pub evidence_digest : List ℕ

pub record EventSequenceTracker : Type 0 where
  pub events : List SecurityEventRecord

unfoldable pub new_tracker : EventSequenceTracker
new_tracker = record { events = [] }

unfoldable pub event_count : EventSequenceTracker → ℕ
event_count t = length t.events

-- The bytes that the hasher is given.
abbrev pub evidence : SecurityEventRecord → List ℕ
evidence r =
    be_bytes 4 (event_number r.event_id)
    ++ (be_bytes 8 r.timestamp_unix_ms
        ++ (be_bytes 4 r.process_id ++ (r.subject_user ++ r.target_resource)))

-- A failed logon of the same user, at most 60 seconds before; `saturating_sub` is `-` on ℕ.
abbrev pub is_recent_failure : SecurityEventRecord → SecurityEventRecord → Bool
is_recent_failure latest e =
    id_eq e.event_id logon_failure
    && (bytes_eq e.subject_user latest.subject_user
        && leb (latest.timestamp_unix_ms - e.timestamp_unix_ms) 60000)

unfoldable pub recent_failures : EventSequenceTracker → SecurityEventRecord → ℕ
recent_failures t latest = length (filter (is_recent_failure latest) t.events)

module _ (sha256 : List ℕ → List ℕ) where
  -- The alert about `latest`; every pattern recommends no more than an alert.
  abbrev pub alert_about : SecurityEventRecord → CorrelationPattern → ℕ → EventAnomalyAlert
  alert_about latest pattern count = record {
    pattern = pattern;
    timestamp_ms = latest.timestamp_unix_ms;
    recommended_action = alert;
    corroborating_evidence_count = count;
    evidence_digest = sha256 (evidence latest);
  }

  unfoldable pub correlate_recent :
      EventSequenceTracker → SecurityEventRecord → Option EventAnomalyAlert
  correlate_recent t latest =
      if id_eq latest.event_id audit_log_cleared
      then some (alert_about latest audit_log_tampering 2)
      else if id_eq latest.event_id service_install || id_eq latest.event_id service_created
      then some (alert_about latest (persistence_service_installed latest.target_resource) 2)
      else if id_eq latest.event_id logon_success && leb 3 (recent_failures t latest)
      then some (
          alert_about latest
            (brute_force_compromised latest.subject_user (recent_failures t latest)) 3)
      else if id_eq latest.event_id power_shell_script_block
      then some (alert_about latest (suspicious_script_execution latest.process_id) 1)
      else none

  -- The window with the record pushed, its oldest event dropped where it was full.
  abbrev pub pushed : EventSequenceTracker → SecurityEventRecord → EventSequenceTracker
  pushed t r = record {
    events =
        (if length t.events == event_sequence_window_size then drop 1 t.events else t.events)
        ++ (r ∷ []);
  }

  unfoldable pub record_event :
      EventSequenceTracker → SecurityEventRecord → EventSequenceTracker × Option EventAnomalyAlert
  record_event t r = (pushed t r, correlate_recent (pushed t r) r)
