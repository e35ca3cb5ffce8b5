-- ===== src/Tests/Services.antt =====
-- The live loop and the service's life on concrete inputs.
use kavach_npu.Prelude.{
  ℕ, ◌≡◌, refl, true, false, [], ◌∷◌, none, some, ok, is_ok, replicate, inl, arith,
}
use kavach_npu.Core.Config.{safe_defaults, default_allowlist}
use kavach_npu.Firewall.Broker.{
  new_broker, policy_gates, purge_expired_replay_cache, action_gate, register_and_execute,
  enforced_action, evaluate_and_enforce, process_suspended,
}
use kavach_npu.Prelude.Bytes.{bytes_eq}
use kavach_npu.Prelude.Dict.{contains, retain}
use kavach_npu.Firewall.Broker.Replay.{run}
use kavach_npu.Service.Live.{live_broker, live_verdict, live_loop}
use kavach_npu.Service.Live.Ticks.{live_loop_ends, live_verdicts_collide}
use kavach_npu.Service.Lifecycle.{
  Service, registering, storing, starting, polling, joining, stop_pending, working, start_pending,
  running, stopped, initial_service, report, service_control_handler, go_on, main, Reach, here,
  next,
}
use kavach_npu.Service.Lifecycle.Invariant.{Reported}
use kavach_npu.Service.Lifecycle.Shutdown.{LiveLoopEnds, never_stopped, stop_hangs}

live_loop_ends_example :
    (live_loop false 3 4 0 ≡ some (1 ∷ 2 ∷ 3 ∷ [])) × ((fuel : ℕ) → live_loop true 3 fuel 0 ≡ none)
live_loop_ends_example = live_loop_ends 3 (omega arith)

first_is_enforced :
    (evaluate_and_enforce (live_broker safe_defaults) (live_verdict safe_defaults 1000 1) 1100).1
    ≡ ok (process_suspended 1337 (replicate 32 0xEE))
unfolding live_broker live_verdict evaluate_and_enforce policy_gates contains
    purge_expired_replay_cache retain new_broker safe_defaults default_allowlist bytes_eq
    action_gate register_and_execute enforced_action
first_is_enforced = refl

live_verdicts_collide_example :
    is_ok
      (evaluate_and_enforce
        (run
          (evaluate_and_enforce
            (live_broker safe_defaults)
            (live_verdict safe_defaults 1000 1)
            1100).0
          [])
        (live_verdict safe_defaults 1000 257)
        26700).1
    ≡ false
unfolding live_broker new_broker
live_verdicts_collide_example =
    live_verdicts_collide (live_broker safe_defaults) safe_defaults 1000 1
      (process_suspended 1337 (replicate 32 0xEE)) [] tt (omega arith) first_is_enforced tt

never_stopped_example : ¬ Reported stopped (go_on initial_service initial_service.place)
never_stopped_example = never_stopped (next here (main initial_service tt))

-- A service in its polling loop, which has reported that it starts and that it runs.
abbrev polling_service : Service
polling_service = record {
  place = polling;
  has_handle = true;
  service_running = true;
  worker = working;
  reports =
      record { current_state = running; accepts_stop = true; wait_hint_ms = 0 }
      ∷ record { current_state = start_pending; accepts_stop = false; wait_hint_ms = 5000 }
      ∷ [];
}

polling_is_reached : Reach LiveLoopEnds initial_service polling_service
unfolding go_on report
polling_is_reached =
    let registered = go_on initial_service registering in
    let started = go_on registered storing in
    let announced = go_on started starting in
    next (next (next (next here (main initial_service tt)) (main registered tt)) (main started tt))
      (main announced tt)

stop_hangs_example :
    (t : Service) × Reach LiveLoopEnds (service_control_handler 1 polling_service).0 t
    × Reported stop_pending t
    × (t.place ≡ joining)
    × ((u : Service) → Reach LiveLoopEnds t u → u.place ≡ joining)
stop_hangs_example = stop_hangs polling_service 1 polling_is_reached refl (inl refl)
