-- ===== src/Wsl/ClockSync/Laws.antt =====
-- Which exchanges the synchronizer accepts, what it then estimates, and when it withdraws.
use kavach_npu.Prelude.{
  ℕ, ◌+◌, ◌-◌, ◌^◌, ◌≤◌, ◌<◌, ◌≡◌, ◌↔◌, inl, inr, ap, ◌∙◌, true, false, List, [], ◌∷◌, none, some,
  ok, is_ok, length, All, All-append, All-drop, length-append, length-drop, arith, Bool-cases,
  Option-cases,
}
use kavach_npu.Prelude.Bytes.{bytes_eq_iff}
use kavach_npu.Wsl.ClockSync.{
  ClockSample, ClockChallenge, ClockResponse, ClockSynchronizer, ClockOffsetEstimate, make_room,
  failed, accept, process_response, valid_estimate, get_valid_estimate,
}

-- What ADR 005 asks of an exchange that ended at `t3`.
pub record IsExchange (c : ClockChallenge) (r : ClockResponse) (t3 : ℕ) : Type 0 where
  pub same_nonce : c.nonce ≡ r.nonce
  pub host_order : c.t0_host_monotonic_ns < t3
  pub guest_order : r.g1_guest_monotonic_ns ≤ r.g2_guest_monotonic_ns
  pub short : t3 - c.t0_host_monotonic_ns ≤ 100000000

-- An exchange is accepted exactly when its nonces are equal, both clocks went forward, and the round
-- trip took at most 100 ms.
process-ok_iff :
    (s : ClockSynchronizer) (c : ClockChallenge) (r : ClockResponse) (t3 : ℕ)
    → (is_ok (process_response s c r t3).1 ≡ true) ↔ IsExchange c r t3
unfolding process_response
process-ok_iff s c r t3 = ground (arith, bytes_eq_iff c.nonce r.nonce)

-- A rejected exchange only counts a failure: samples and estimate stay.
process-err :
    (s : ClockSynchronizer) (c : ClockChallenge) (r : ClockResponse) (t3 : ℕ)
    → is_ok (process_response s c r t3).1 ≡ false
    → (process_response s c r t3).0 ≡ failed s
unfolding process_response
process-err s c r t3 h = ground arith

abbrev pub IsQuick : ClockSample → Type 0
IsQuick x = x.rtt_ns ≤ 100000000

-- At most five samples, each of a round trip of at most 100 ms.
pub record IsSynchronizer (s : ClockSynchronizer) : Type 0 where
  pub few : length s.accepted_samples ≤ 5
  pub quick : All IsQuick s.accepted_samples

length-make_room : (xs : List ClockSample) → length xs ≤ 5 → length (make_room xs) ≤ 4
length-make_room xs h = ground (arith, length-drop 1 xs)

All-make_room : (xs : List ClockSample) → All IsQuick xs → All IsQuick (make_room xs)
All-make_room xs h = ground (arith, All-drop IsQuick 1 xs h)

accept-IsSynchronizer :
    (s : ClockSynchronizer) (c : ClockChallenge) (r : ClockResponse) (t3 : ℕ)
    → IsExchange c r t3
    → IsSynchronizer s
    → IsSynchronizer (accept s c r t3).0
unfolding accept
accept-IsSynchronizer s c r t3 x v = record {
  few = omega (
    arith,
    length-append (make_room s.accepted_samples) (_ ∷ []),
    length-make_room s.accepted_samples v.few,
  );
  quick =
      All-append IsQuick (make_room s.accepted_samples) (_ ∷ [])
        (All-make_room s.accepted_samples v.quick) (x.short, tt);
}

pub process-accept :
    (s : ClockSynchronizer) (c : ClockChallenge) (r : ClockResponse) (t3 : ℕ)
    → IsExchange c r t3
    → process_response s c r t3 ≡ ((accept s c r t3).0, ok (accept s c r t3).1)
unfolding process_response
process-accept s c r t3 x = ground (arith, bytes_eq_iff c.nonce r.nonce)

-- Every exchange, accepted or not, keeps the buffer at five samples at most, each of a round trip of
-- at most 100 ms.
pub process-IsSynchronizer :
    (s : ClockSynchronizer) (c : ClockChallenge) (r : ClockResponse) (t3 : ℕ)
    → IsSynchronizer s
    → IsSynchronizer (process_response s c r t3).0
process-IsSynchronizer s c r t3 v = elim (Bool-cases (is_ok (process_response s c r t3).1)) [
  | inl e ↦
      let x = (process-ok_iff s c r t3).0 e in
      rw (process-accept s c r t3 x) (accept-IsSynchronizer s c r t3 x v)
  | inr e ↦ rw (process-err s c r t3 e) (record { few = v.few; quick = v.quick })
]

-- The most recent estimate is used exactly while it is fresh, uncertain by at most 50 ms, and fewer
-- than three exchanges in a row have failed.
pub get_valid_estimate_iff :
    (s : ClockSynchronizer) (now : ℕ) (est : ClockOffsetEstimate)
    → (get_valid_estimate s now ≡ some est) ↔ (
        (s.current_estimate ≡ some est)
        × (now ≤ est.valid_until_host_monotonic_ns)
        × (est.uncertainty_ns ≤ 50000000)
        × (s.consecutive_failures < 3))
unfolding get_valid_estimate valid_estimate
get_valid_estimate_iff s now est = elim (Option-cases s.current_estimate) [
  | inl e ↦ ground (arith, e)
  | inr (x, e) ↦ ground (arith, e)
]

-- The exchanges as they end.
unfoldable pub exchanges :
    ClockSynchronizer → List (ClockChallenge × ClockResponse × ℕ) → ClockSynchronizer
exchanges s [] = s
exchanges s ((c, r, t3) ∷ rest) = exchanges (process_response s c r t3).0 rest

abbrev pub IsRejected : ClockChallenge × ClockResponse × ℕ → Type 0
IsRejected (c, r, t3) = ¬ IsExchange c r t3

failures :
    (s : ClockSynchronizer) (xs : List (ClockChallenge × ClockResponse × ℕ))
    → All IsRejected xs
    → s.consecutive_failures + length xs < 2 ^ 64
    → (exchanges s xs).consecutive_failures ≡ s.consecutive_failures + length xs
unfolding exchanges
failures s [] h fits = omega arith
failures s ((c, r, t3) ∷ rest) (x, h) fits =
    let e : is_ok (process_response s c r t3).1 ≡ false = ground (arith, process-ok_iff s c r t3) in
    ap (λ s'. (exchanges s' rest).consecutive_failures) (process-err s c r t3 e)
    ∙ failures (failed s) rest h (omega arith)
    ∙ omega arith

-- From three exchanges in a row that do not qualify on there is no estimate, at any time, until one
-- does (or 2^64 have failed).
pub three_failures :
    (s : ClockSynchronizer) (xs : List (ClockChallenge × ClockResponse × ℕ)) (now : ℕ)
    → All IsRejected xs
    → 3 ≤ length xs
    → s.consecutive_failures + length xs < 2 ^ 64
    → get_valid_estimate (exchanges s xs) now ≡ none
three_failures s xs now h three fits =
    elim (Option-cases (get_valid_estimate (exchanges s xs) now)) [
      | inl e ↦ e
      | inr (est, e) ↦
          let (_, _, _, few) = (get_valid_estimate_iff (exchanges s xs) now est).0 e in
          absurd (omega (arith, failures s xs h fits, few))
    ]
