-- ===== src/Service/Lifecycle.antt =====
-- src/service.rs, `win_service`: the control handler and `service_main`, as steps of the service, of
-- its worker thread and of the service manager. Reports to the manager are collected, the last one
-- first. The registration either fails or gives a handle, and every report with a handle that is not
-- null reaches the manager.
pub mod Invariant
pub mod Shutdown
use kavach_npu.Prelude.{ℕ, ◌≡◌, ◌≢◌, Bool, true, false, ◌||◌, List, [], ◌∷◌, ◌==◌, if◌then◌else◌}

-- The states that `SetServiceStatus` is called with.
pub data ScmState : Type 0 where
  start_pending running stop_pending stopped : ScmState

pub record StatusReport : Type 0 where
  pub current_state : ScmState
  -- STOP and SHUTDOWN are accepted, or no control is.
  pub accepts_stop : Bool
  pub wait_hint_ms : ℕ

-- The place of `service_main` in its body.
pub data Place : Type 0 where
  registering storing starting launching polling stopping waiting joining returned : Place

pub data Worker : Type 0 where
  unstarted working finished : Worker

pub record Service : Type 0 where
  pub place : Place
  -- STATUS_HANDLE is not null.
  pub has_handle : Bool
  -- SERVICE_RUNNING
  pub service_running : Bool
  pub worker : Worker
  pub reports : List StatusReport

abbrev pub initial_service : Service
initial_service = record {
  place = registering;
  has_handle = false;
  service_running = true;
  worker = unstarted;
  reports = [];
}

-- `update_service_status`
unfoldable pub report : ScmState → Bool → ℕ → Service → Service
report state accepts hint s = record s {
  reports =
      record { current_state = state; accepts_stop = accepts; wait_hint_ms = hint } ∷ s.reports;
}

-- The same with the handle that is stored, which may be null.
unfoldable pub report_stored : ScmState → Bool → ℕ → Service → Service
unfolding report
report_stored state accepts hint s = if s.has_handle then report state accepts hint s else s

abbrev pub no_error : ℕ
no_error = 0

abbrev pub error_call_not_implemented : ℕ
error_call_not_implemented = 120

-- SERVICE_CONTROL_STOP is 1, SERVICE_CONTROL_INTERROGATE 4, SERVICE_CONTROL_SHUTDOWN 5.
unfoldable pub service_control_handler : ℕ → Service → Service × ℕ
unfolding report_stored
service_control_handler control s =
    if control == 1 || control == 5
    then (report_stored stop_pending false 10000 (record s { service_running = false }), no_error)
    else if control == 4
    then (s, no_error)
    else (s, error_call_not_implemented)

-- Where `service_main` goes on; the registration's success and the worker's end come from outside.
unfoldable pub go_on : Service → Place → Service
unfolding report
go_on s registering = record s { place = storing }
go_on s storing = record s { place = starting; has_handle = true }
go_on s starting =
    report running true 0 (report start_pending false 5000 (record s { place = launching }))
go_on s launching = record s { place = polling; worker = working }
go_on s polling = if s.service_running then s else record s { place = stopping }
go_on s stopping = report stop_pending false 5000 (record s { place = waiting })
go_on s waiting = record s { place = joining }
go_on s joining = report stopped false 0 (record s { place = returned })
go_on s returned = s

-- What `service_main` can go on from: `join` waits for the worker, all else for nothing; the wait of
-- 5 seconds ends by the worker's message or by itself.
abbrev pub CanGoOn : Service → Place → Type 0
CanGoOn s joining = s.worker ≡ finished
CanGoOn s returned = ⊥
CanGoOn s registering = Unit {0}
CanGoOn s storing = Unit {0}
CanGoOn s starting = Unit {0}
CanGoOn s launching = Unit {0}
CanGoOn s polling = Unit {0}
CanGoOn s stopping = Unit {0}
CanGoOn s waiting = Unit {0}

-- One step. `Ends` says that the worker's function returns. That it panics, by which `join` would go on
-- too, is no step here.
pub data Step (Ends : Type 0) : Service → Service → Type 0 where
  main : (s : Service) → CanGoOn s s.place → Step Ends s (go_on s s.place)
  refused : (s : Service) → s.place ≡ registering → Step Ends s (record s { place = returned })
  control :
      (s : Service) (code : ℕ)
      → s.place ≢ registering
      → Step Ends s (service_control_handler code s).0
  worker_ends :
      (s : Service) → s.worker ≡ working → Ends → Step Ends s (record s { worker = finished })

pub data Reach (Ends : Type 0) (s : Service) : Service → Type 0 where
  here : Reach Ends s s
  next : {t u : Service} → Reach Ends s t → Step Ends t u → Reach Ends s u
