-- ===== src/Events/Tracker/Laws.antt =====
-- The identifiers, and the window as the last 16 events.
use mathlib.Core.List.{append-nil, append_assoc}
use kavach_npu.Prelude.{ℕ, ◌≡◌, ◌↔◌, sym, ap, ◌∙◌, List, [], ◌∷◌, ◌++◌, some, arith}
use kavach_npu.Prelude.Windows.{last_of, last_of-append}
use kavach_npu.Events.Tracker.{
  CriticalEventId, logon_success, logon_failure, service_install, service_created,
  audit_log_cleared, power_shell_script_block, bug_check, SecurityEventRecord, EventSequenceTracker,
  event_number, from_u32, new_tracker, record_event, pushed,
}

-- A number is read as an identifier exactly when it is that identifier's.
pub from_u32_iff : (n : ℕ) (e : CriticalEventId) → (from_u32 n ≡ some e) ↔ (event_number e ≡ n)
unfolding from_u32 event_number
from_u32_iff n logon_success = ground arith
from_u32_iff n logon_failure = ground arith
from_u32_iff n service_install = ground arith
from_u32_iff n service_created = ground arith
from_u32_iff n audit_log_cleared = ground arith
from_u32_iff n power_shell_script_block = ground arith
from_u32_iff n bug_check = ground arith

module _ (sha256 : List ℕ → List ℕ) where
  unfoldable pub record_all : EventSequenceTracker → List SecurityEventRecord → EventSequenceTracker
  record_all t [] = t
  record_all t (r ∷ rs) = record_all (record_event sha256 t r).0 rs

-- The last 16 of a list.
abbrev pub last_window : List SecurityEventRecord → List SecurityEventRecord
last_window = last_of 16

pub last_window-append :
    (sha256 : List ℕ → List ℕ) (rs : List SecurityEventRecord) (r : SecurityEventRecord)
    → (pushed sha256 (record { events = last_window rs }) r).events ≡ last_window (rs ++ (r ∷ []))
last_window-append sha256 rs r = last_of-append 16 rs r (omega arith)

record_all-from :
    (sha256 : List ℕ → List ℕ) (before rs : List SecurityEventRecord)
    → (record_all sha256 (record { events = last_window before }) rs).events
      ≡ last_window (before ++ rs)
unfolding record_all record_event
record_all-from sha256 before [] = ap last_window (sym (append-nil before))
record_all-from sha256 before (r ∷ rs) =
    ap (λ es. (record_all sha256 (record { events = es }) rs).events)
      (last_window-append sha256 before r)
    ∙ record_all-from sha256 (before ++ (r ∷ [])) rs
    ∙ ap last_window (append_assoc before (r ∷ []) rs)

-- Whatever events are recorded, the window holds the last 16 of them, in their order.
pub record_all-last_window :
    (sha256 : List ℕ → List ℕ) (rs : List SecurityEventRecord)
    → (record_all sha256 new_tracker rs).events ≡ last_window rs
unfolding new_tracker
record_all-last_window sha256 rs = record_all-from sha256 [] rs
