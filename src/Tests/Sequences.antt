-- ===== src/Tests/Sequences.antt =====
-- The event tracker on concrete inputs.
use kavach_npu.Prelude.{ℕ, ◌≡◌, ◌↔◌, ◌≤◌, refl, some, List, [], ◌∷◌, ◌++◌, length, filter, take}
use kavach_npu.Prelude.Bytes.{bytes_eq}
use kavach_npu.Events.Tracker.{
  SecurityEventRecord, logon_success, logon_failure, audit_log_cleared, audit_log_tampering,
  brute_force_compromised, alert_about, is_recent_failure, new_tracker, record_event,
  correlate_recent, event_number, id_eq,
}
use kavach_npu.Events.Tracker.Laws.{record_all, last_window}
use kavach_npu.Events.Tracker.Alerts.{brute_force_iff}

-- Standing for SHA-256: the first 32 bytes.
abbrev sample_digest : List ℕ → List ℕ
sample_digest = take 32

abbrev failure : SecurityEventRecord
failure = record {
  event_id = logon_failure;
  timestamp_unix_ms = 1000;
  process_id = 4;
  subject_user = b'u' ∷ [];
  target_resource = [];
}

abbrev success : SecurityEventRecord
success = record failure { event_id = logon_success; timestamp_unix_ms = 2000 }

abbrev cleared : SecurityEventRecord
cleared = record failure { event_id = audit_log_cleared }

cleared_raises :
    (record_event sample_digest new_tracker cleared).1
    ≡ some (alert_about sample_digest cleared audit_log_tampering 2)
unfolding record_event correlate_recent event_number id_eq
cleared_raises = refl

brute_force_iff_example :
    let history = failure ∷ failure ∷ failure ∷ [] in
    let count =
      length (filter (is_recent_failure success) (last_window (history ++ (success ∷ [])))) in
    let raised = alert_about sample_digest success (brute_force_compromised (b'u' ∷ []) count) 3 in
    ((record_event sample_digest (record_all sample_digest new_tracker history) success).1
      ≡ some raised)
    ↔ ((3 ≤ count) × (raised ≡ raised))
unfolding id_eq event_number bytes_eq
brute_force_iff_example =
    brute_force_iff sample_digest (failure ∷ failure ∷ failure ∷ []) success
      (alert_about sample_digest success (brute_force_compromised (b'u' ∷ []) 3) 3) refl
