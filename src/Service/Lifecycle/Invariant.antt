-- ===== src/Service/Lifecycle/Invariant.antt =====
-- src/service.rs: the service's worker, flag and reports beside its place.
use kavach_npu.Prelude.{
  ℕ, ◌≡◌, ◌≢◌, ◌⊎◌, refl, sym, subst, Bool, false, ◌||◌, Some, ◌==◌, if◌then◌else◌, Bool-cases, inl,
  inr,
}
use kavach_npu.Service.Lifecycle.{
  ScmState, start_pending, running, stop_pending, stopped, Place, registering, storing, starting,
  launching, polling, stopping, waiting, joining, returned, unstarted, finished, Service,
  initial_service, report, report_stored, service_control_handler, go_on, CanGoOn, Step, main,
  refused, control, worker_ends, Reach, here, next,
}

-- The manager has had a report of the state.
abbrev pub Reported : ScmState → Service → Type 0
Reported state s = Some (λ r. r.current_state ≡ state) s.reports

-- `service_main` is past its polling loop, and has not returned.
abbrev pub Past : Place → Type 0
Past stopping = Unit {0}
Past waiting = Unit {0}
Past joining = Unit {0}
Past registering = ⊥
Past storing = ⊥
Past starting = ⊥
Past launching = ⊥
Past polling = ⊥
Past returned = ⊥

-- The worker runs or has run.
abbrev pub Launched : Place → Type 0
Launched polling = Unit {0}
Launched stopping = Unit {0}
Launched waiting = Unit {0}
Launched joining = Unit {0}
Launched registering = ⊥
Launched storing = ⊥
Launched starting = ⊥
Launched launching = ⊥
Launched returned = ⊥

-- The worker has not been spawned.
abbrev pub Idle : Place → Type 0
Idle registering = Unit {0}
Idle storing = Unit {0}
Idle starting = Unit {0}
Idle launching = Unit {0}
Idle polling = ⊥
Idle stopping = ⊥
Idle waiting = ⊥
Idle joining = ⊥
Idle returned = ⊥

pub record IsService (Ends : Type 0) (s : Service) : Type 0 where
  pub ended : s.worker ≡ finished → Ends
  pub after_end : Reported stopped s → (s.worker ≡ finished) × (s.service_running ≡ false)
  pub asked : Past s.place → s.service_running ≡ false
  idle : Idle s.place → s.worker ≡ unstarted
  pub launched : Launched s.place → s.worker ≢ unstarted

-- A report of another state is not one of having stopped.
not_stopped : (state : ScmState) (P : Type 0) → state ≢ stopped → (state ≡ stopped) ⊎ P → P
not_stopped state P h (inl e) = absurd (h e)
not_stopped state P h (inr p) = p

module _ {Ends : Type 0} where
  main-IsService :
      (s : Service) (p : Place)
      → s.place ≡ p
      → CanGoOn s p
      → IsService Ends s
      → IsService Ends (go_on s p)
  unfolding go_on report
  main-IsService s registering e c i = record {
    ended = i.ended;
    after_end = i.after_end;
    asked = λ h. absurd h;
    idle = λ h. i.idle (subst Idle (sym e) h);
    launched = λ h. absurd h;
  }
  main-IsService s storing e c i = record {
    ended = i.ended;
    after_end = i.after_end;
    asked = λ h. absurd h;
    idle = λ h. i.idle (subst Idle (sym e) h);
    launched = λ h. absurd h;
  }
  main-IsService s starting e c i = record {
    ended = i.ended;
    after_end = λ h.
        i.after_end (not_stopped start_pending _ (λ e. cc) (not_stopped running _ (λ e. cc) h));
    asked = λ h. absurd h;
    idle = λ h. i.idle (subst Idle (sym e) h);
    launched = λ h. absurd h;
  }
  main-IsService s launching e c i = record {
    ended = λ h. absurd (cc h);
    after_end = λ h. absurd (cc ((i.after_end h).0, i.idle (subst Idle (sym e) tt)));
    asked = λ h. absurd h;
    idle = λ h. absurd h;
    launched = λ h k. cc k;
  }
  main-IsService s polling e c i =
      let after = λ (b : Bool). if b then s else record s { place = stopping } in
      elim (Bool-cases s.service_running) [
        | inl on ↦ subst (λ b. IsService Ends (after b)) (sym on) i
        | inr off ↦
            subst (λ b. IsService Ends (after b)) (sym off)
              (record {
                ended = i.ended;
                after_end = i.after_end;
                asked = λ h. off;
                idle = λ h. absurd h;
                launched = λ h. i.launched (subst Launched (sym e) tt);
              })
      ]
  main-IsService s stopping e c i = record {
    ended = i.ended;
    after_end = λ h. i.after_end (not_stopped stop_pending _ (λ e. cc) h);
    asked = λ h. i.asked (subst Past (sym e) tt);
    idle = λ h. absurd h;
    launched = λ h. i.launched (subst Launched (sym e) tt);
  }
  main-IsService s waiting e c i = record {
    ended = i.ended;
    after_end = i.after_end;
    asked = λ h. i.asked (subst Past (sym e) tt);
    idle = λ h. absurd h;
    launched = λ h. i.launched (subst Launched (sym e) tt);
  }
  main-IsService s joining e c i = record {
    ended = i.ended;
    after_end = λ h. (c, i.asked (subst Past (sym e) tt));
    asked = λ h. absurd h;
    idle = λ h. absurd h;
    launched = λ h. absurd h;
  }
  main-IsService s returned e c i = absurd c

  told-IsService :
      (s : Service) → IsService Ends s → IsService Ends (report_stored stop_pending false 10000 s)
  unfolding report_stored report
  told-IsService s i =
      let told = report stop_pending false 10000 s in
      elim (Bool-cases s.has_handle) [
        | inl e ↦
            subst (λ b. IsService Ends (if b then told else s)) (sym e)
              (record {
                ended = i.ended;
                after_end = λ k. i.after_end (not_stopped stop_pending _ (λ e. cc) k);
                asked = i.asked;
                idle = i.idle;
                launched = i.launched;
              })
        | inr e ↦ subst (λ b. IsService Ends (if b then told else s)) (sym e) i
      ]

  control-IsService :
      (s : Service) (code : ℕ)
      → s.place ≢ registering
      → IsService Ends s
      → IsService Ends (service_control_handler code s).0
  unfolding service_control_handler
  control-IsService s code h i = elim (Bool-cases (code == 1 || code == 5)) [
    | inl e ↦ rw e (
        told-IsService (record s { service_running = false })
          (record {
            ended = i.ended;
            after_end = λ k. ((i.after_end k).0, refl);
            asked = λ k. refl;
            idle = i.idle;
            launched = i.launched;
          }))
    | inr e ↦ elim (Bool-cases (code == 4)) [ inl k ↦ rw e (rw k i) | inr k ↦ rw e (rw k i) ]
  ]

  Step-IsService : {s t : Service} → Step Ends s t → IsService Ends s → IsService Ends t
  Step-IsService (main s c) i = main-IsService s s.place refl c i
  Step-IsService (refused s e) i = record {
    ended = i.ended;
    after_end = i.after_end;
    asked = λ h. absurd h;
    idle = λ h. absurd h;
    launched = λ h. absurd h;
  }
  Step-IsService (control s code h) i = control-IsService s code h i
  Step-IsService (worker_ends s e ends) i = record {
    ended = λ h. ends;
    after_end = λ h. (refl, (i.after_end h).1);
    asked = i.asked;
    idle = λ h. absurd (cc (i.idle h, e));
    launched = λ h k. cc k;
  }

  pub Reach-IsService : {s : Service} → Reach Ends initial_service s → IsService Ends s
  Reach-IsService here = record {
    ended = λ h. cc h;
    after_end = λ h. absurd h;
    asked = λ h. absurd h;
    idle = λ h. refl;
    launched = λ h. absurd h;
  }
  Reach-IsService (next r st) = Step-IsService st (Reach-IsService r)
