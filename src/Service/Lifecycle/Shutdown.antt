-- ===== src/Service/Lifecycle/Shutdown.antt =====
-- src/service.rs: when the service reports that it has stopped.
use kavach_npu.Prelude.{
  ℕ, ◌≡◌, ◌≢◌, ◌⊎◌, ◌∙◌, refl, sym, subst, true, false, List, some, if◌then◌else◌, arith, inl,
}
use kavach_npu.Service.Live.{live_loop}
use kavach_npu.Service.Live.Ticks.{live_loop_ends}
use kavach_npu.Service.Lifecycle.{
  stop_pending, stopped, Place, polling, stopping, waiting, joining, Worker, unstarted, working,
  finished, Service, initial_service, report, report_stored, service_control_handler, go_on,
  CanGoOn, Step, main, refused, control, worker_ends, Reach, here, next,
}
use kavach_npu.Service.Lifecycle.Invariant.{Reported, Launched, Reach-IsService}

module _ {Ends : Type 0} where
  -- The service reports that it has stopped only after a stop was asked for and the worker's function
  -- has returned.
  stopped_after_end :
      {s : Service}
      → Reach Ends initial_service s
      → Reported stopped s
      → (s.service_running ≡ false) × (s.worker ≡ finished) × Ends
  stopped_after_end r h =
      let i = Reach-IsService r in let (over, off) = i.after_end h in (off, over, i.ended over)

-- The worker runs the live loop in its continuous mode, with the bound 0.
abbrev pub LiveLoopEnds : Type 0
LiveLoopEnds = (fuel : ℕ) × (ticks : List ℕ) × (live_loop true 0 fuel 0 ≡ some ticks)

live_loop_runs : ¬ LiveLoopEnds
live_loop_runs (fuel, ticks, e) = cc ((live_loop_ends 0 (omega arith)).1 fuel, e)

-- The service never reports that it has stopped, whatever controls it is sent: its worker runs the
-- live loop, which does not end. A worker that panics is not looked at.
pub never_stopped : {s : Service} → Reach LiveLoopEnds initial_service s → ¬ Reported stopped s
never_stopped r h = let (off, over, ends) = stopped_after_end r h in live_loop_runs ends

-- A control leaves the place of `service_main` and the worker alone.
handler-same :
    (code : ℕ) (s : Service)
    → let told = (service_control_handler code s).0 in
      (told.place ≡ s.place) × (told.worker ≡ s.worker)
unfolding service_control_handler report_stored report
handler-same code s = ground arith

handler-stops :
    (code : ℕ) (s : Service)
    → (code ≡ 1) ⊎ (code ≡ 5)
    → (service_control_handler code s).0.service_running ≡ false
unfolding service_control_handler report_stored report
handler-stops code s h = ground arith

-- `service_main` waits for a worker that runs.
abbrev IsWaiting : Service → Type 0
IsWaiting s = (s.place ≡ joining) × (s.worker ≡ working)

Step-IsWaiting : {s t : Service} → Step LiveLoopEnds s t → IsWaiting s → IsWaiting t
Step-IsWaiting (main s c) (e, w) = absurd (cc (w, subst (CanGoOn s) e c))
Step-IsWaiting (refused s e') (e, w) = absurd (cc (e, e'))
Step-IsWaiting (control s code h) (e, w) =
    let (place, worker) = handler-same code s in (place ∙ e, worker ∙ w)
Step-IsWaiting (worker_ends s w' ends) h = absurd (live_loop_runs ends)

Reach-IsWaiting : {s t : Service} → Reach LiveLoopEnds s t → IsWaiting s → IsWaiting t
Reach-IsWaiting here h = h
Reach-IsWaiting (next r st) h = Step-IsWaiting st (Reach-IsWaiting r h)

module _ {Ends : Type 0} {s : Service} where
  -- The step of `service_main` from a known place.
  main_at :
      (t : Service) (p : Place)
      → t.place ≡ p
      → CanGoOn t p
      → Reach Ends s t
      → Reach Ends s (go_on t p)
  main_at t p e c r =
      subst (λ q. Reach Ends s (go_on t q)) e (next r (main t (subst (CanGoOn t) (sym e) c)))

  -- From the polling loop to the join, once the flag is cleared.
  from_polling :
      (t : Service)
      → t.place ≡ polling
      → t.service_running ≡ false
      → Reach Ends s t
      → (u : Service) × Reach Ends s u
        × Reported stop_pending u
        × (u.place ≡ joining)
        × (u.worker ≡ t.worker)
  unfolding go_on report
  from_polling t e off r =
      let stop = record t { place = stopping } in
      let wait = go_on stop stopping in
      let left = subst (λ b. Reach Ends s (if b then t else stop)) off (main_at t polling e tt r) in
      (
        go_on wait waiting,
        main_at wait waiting refl tt (main_at stop stopping refl tt left),
        inl refl,
        refl,
        refl,
      )

worker_cases : (w : Worker) → w ≢ unstarted → w ≢ finished → w ≡ working
worker_cases unstarted h k = absurd (h refl)
worker_cases working h k = refl
worker_cases finished h k = absurd (k refl)

-- A service in its polling loop that is sent a stop or a shutdown can go on to report that its stop is
-- pending and to wait for its worker, and from there it waits on, whatever happens. A worker that
-- panics is not looked at.
pub stop_hangs :
    (s : Service) (code : ℕ)
    → Reach LiveLoopEnds initial_service s
    → s.place ≡ polling
    → (code ≡ 1) ⊎ (code ≡ 5)
    → (t : Service) × Reach LiveLoopEnds (service_control_handler code s).0 t
      × Reported stop_pending t
      × (t.place ≡ joining)
      × ((u : Service) → Reach LiveLoopEnds t u → u.place ≡ joining)
stop_hangs s code r e is_stop =
    let i = Reach-IsService r in
    let works =
      worker_cases s.worker (i.launched (subst Launched (sym e) tt))
        (λ w. live_loop_runs (i.ended w)) in
    let told = (service_control_handler code s).0 in
    let (place, worker) = handler-same code s in
    let (t, reached, pending, joins, same) =
      from_polling told (place ∙ e) (handler-stops code s is_stop) here in
    (t, reached, pending, joins, λ u r. (Reach-IsWaiting r (joins, same ∙ worker ∙ works)).0)
