-- ===== src/Events/Tracker/Alerts.antt =====
-- When an event raises an alert, and what the alert says.
use kavach_npu.Prelude.{
  ℕ, ◌≤◌, ◌<◌, ◌≡◌, ◌↔◌, refl, sym, ap, ◌∙◌, true, List, [], ◌∷◌, ◌++◌, none, some, ◌⊎◌, length,
  filter, arith, inl, inr,
}
use kavach_npu.Core.Contracts.{alert}
use kavach_npu.Events.Tracker.{
  CriticalEventId, logon_success, logon_failure, service_install, service_created,
  audit_log_cleared, power_shell_script_block, bug_check, brute_force_compromised,
  SecurityEventRecord, EventSequenceTracker, EventAnomalyAlert, event_number, id_eq, evidence,
  alert_about, correlate_recent, recent_failures, is_recent_failure, new_tracker, record_event,
  pushed,
}
use kavach_npu.Events.Tracker.Laws.{
  from_u32_iff, record_all, record_all-last_window, last_window, last_window-append,
}

id_cases :
    (e : CriticalEventId)
    → (e ≡ logon_success)
      ⊎ ((e ≡ logon_failure)
          ⊎ ((e ≡ service_install)
              ⊎ ((e ≡ service_created)
                  ⊎ ((e ≡ audit_log_cleared)
                      ⊎ ((e ≡ power_shell_script_block) ⊎ (e ≡ bug_check))))))
id_cases logon_success = inl refl
id_cases logon_failure = inr (inl refl)
id_cases service_install = inr (inr (inl refl))
id_cases service_created = inr (inr (inr (inl refl)))
id_cases audit_log_cleared = inr (inr (inr (inr (inl refl))))
id_cases power_shell_script_block = inr (inr (inr (inr (inr (inl refl)))))
id_cases bug_check = inr (inr (inr (inr (inr (inr refl)))))

id_eq_iff : (a b : CriticalEventId) → (id_eq a b ≡ true) ↔ (a ≡ b)
unfolding id_eq
id_eq_iff a b =
    (λ h. event_number_injective a b (ground (arith, h)), λ h. ground (arith, ap event_number h))
  where
    event_number_injective : (a b : CriticalEventId) → event_number a ≡ event_number b → a ≡ b
    event_number_injective a b h = cc (
      sym ((from_u32_iff (event_number a) a).1 refl),
      (from_u32_iff (event_number a) b).1 (sym h),
    )

module _ (sha256 : List ℕ → List ℕ) where
  -- What every alert about the event says.
  pub record Reports (r : SecurityEventRecord) (a : EventAnomalyAlert) : Type 0 where
    pub only_alert : a.recommended_action ≡ alert
    pub digest : a.evidence_digest ≡ sha256 (evidence r)
    pub time : a.timestamp_ms ≡ r.timestamp_unix_ms
    pub some_evidence : 1 ≤ a.corroborating_evidence_count
    pub little_evidence : a.corroborating_evidence_count ≤ 3

  -- Every alert recommends no more than an alert, is of the event's time, carries the digest of the
  -- event's fields, and claims one to three pieces of evidence.
  record_event-Reports :
      (t : EventSequenceTracker) (r : SecurityEventRecord) (a : EventAnomalyAlert)
      → (record_event sha256 t r).1 ≡ some a
      → Reports r a
  unfolding record_event correlate_recent
  record_event-Reports t r a h = ground arith

  -- An event raises no alert exactly when it is a failed logon, a bug check, or a logon after fewer
  -- than three recent failures of the same user in the window.
  record_event-none_iff :
      (t : EventSequenceTracker) (r : SecurityEventRecord)
      → ((record_event sha256 t r).1 ≡ none) ↔ (
          (r.event_id ≡ logon_failure)
          ⊎ ((r.event_id ≡ bug_check)
              ⊎ ((r.event_id ≡ logon_success) × (recent_failures (pushed sha256 t r) r < 3))))
  unfolding record_event correlate_recent
  record_event-none_iff t r = ground (
    arith,
    id_cases r.event_id,
    id_eq_iff r.event_id audit_log_cleared,
    id_eq_iff r.event_id service_install,
    id_eq_iff r.event_id service_created,
    id_eq_iff r.event_id logon_success,
    id_eq_iff r.event_id power_shell_script_block,
  )

  logon_alert :
      (t : EventSequenceTracker) (r : SecurityEventRecord) (a : EventAnomalyAlert)
      → r.event_id ≡ logon_success
      → let count = recent_failures (pushed sha256 t r) r in
        ((record_event sha256 t r).1 ≡ some a) ↔ (
          (3 ≤ count) × (a ≡ alert_about sha256 r (brute_force_compromised r.subject_user count) 3))
  unfolding record_event correlate_recent id_eq event_number
  logon_alert t r a h = ground (arith, h)

  -- After any history, a successful logon raises an alert exactly when at least three of the last 16
  -- events, itself included, are failed logons of its user at most 60 seconds before it, and the
  -- alert then names that user and their number.
  pub brute_force_iff :
      (history : List SecurityEventRecord) (r : SecurityEventRecord) (a : EventAnomalyAlert)
      → r.event_id ≡ logon_success
      → let count = length (filter (is_recent_failure r) (last_window (history ++ (r ∷ [])))) in
        ((record_event sha256 (record_all sha256 new_tracker history) r).1 ≡ some a) ↔ (
          (3 ≤ count) × (a ≡ alert_about sha256 r (brute_force_compromised r.subject_user count) 3))
  unfolding record_event correlate_recent recent_failures
  brute_force_iff history r a h =
      let t = record_all sha256 new_tracker history in
      let window : (pushed sha256 t r).events ≡ last_window (history ++ (r ∷ [])) =
        ap (λ es. (pushed sha256 (record { events = es }) r).events)
          (record_all-last_window sha256 history)
        ∙ last_window-append sha256 history r in
      let count : recent_failures (pushed sha256 t r) r
          ≡ length (filter (is_recent_failure r) (last_window (history ++ (r ∷ [])))) =
        ap (λ es. length (filter (is_recent_failure r) es)) window in
      rw (sym count) (logon_alert t r a h)
