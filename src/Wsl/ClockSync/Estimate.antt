-- ===== src/Wsl/ClockSync/Estimate.antt =====
-- What an accepted exchange estimates.
use kavach_npu.Prelude.{
  ℕ, ◌+◌, ◌/◌, ◌≤◌, ◌≡◌, inl, inr, refl, sym, subst, true, false, List, [], ◌∷◌, ◌++◌, some, ok,
  All, All-weaken, Some, leb, arith, Bool-cases,
}
use kavach_npu.Prelude.Int.{ℤ, le_int, sub_i64, unsigned_abs}
use kavach_npu.Wsl.ClockSync.{
  ClockSample, ClockChallenge, ClockResponse, ClockSynchronizer, ClockOffsetEstimate, best_sample,
  min_offset, max_offset, make_room, estimate_of, accept, process_response,
}
use kavach_npu.Wsl.ClockSync.Laws.{IsExchange, process-accept}

-- A sample is no quicker than another.
abbrev pub Slower : ClockSample → ClockSample → Type 0
Slower best x = best.rtt_ns ≤ x.rtt_ns

best_sample-Slower :
    (xs : List ClockSample) (last : ClockSample)
    → All (Slower (best_sample xs last)) (xs ++ (last ∷ []))
unfolding best_sample
best_sample-Slower [] last = omega arith
best_sample-Slower (x ∷ xs) last =
    let best = best_sample (x ∷ xs) last in
    let less : best.rtt_ns ≤ (best_sample xs last).rtt_ns = ground arith in
    (
      ground arith,
      All-weaken (Slower (best_sample xs last)) (Slower best) (xs ++ (last ∷ []))
          (λ y h. omega arith) (best_sample-Slower xs last),
    )

-- The offsets of a sample lie between the bounds.
abbrev pub Between : ℤ → ℤ → ClockSample → Type 0
Between low high x = (le_int low x.offset_ns ≡ true) × (le_int x.offset_ns high ≡ true)

le_int_trans : (a b c : ℤ) → le_int a b ≡ true → le_int b c ≡ true → le_int a c ≡ true
unfolding le_int
le_int_trans a b c h k = ground arith

le_int_total : (a b : ℤ) → le_int a b ≡ false → le_int b a ≡ true
unfolding le_int
le_int_total a b h = ground arith

le_int_refl : (a : ℤ) → le_int a a ≡ true
unfolding le_int
le_int_refl a = ground arith

offsets-Between :
    (xs : List ClockSample) (last : ClockSample)
    → All (Between (min_offset xs last) (max_offset xs last)) (xs ++ (last ∷ []))
unfolding min_offset max_offset
offsets-Between [] last = ((le_int_refl last.offset_ns, le_int_refl last.offset_ns), tt)
offsets-Between (x ∷ xs) last =
    let low = min_offset xs last in
    let high = max_offset xs last in
    let low' = min_offset (x ∷ xs) last in
    let high' = max_offset (x ∷ xs) last in
    let under : (le_int low' low ≡ true) × (le_int low' x.offset_ns ≡ true) =
      ground (arith, le_int_total x.offset_ns low, le_int_refl low, le_int_refl x.offset_ns) in
    let over : (le_int high high' ≡ true) × (le_int x.offset_ns high' ≡ true) =
      ground (arith, le_int_total high x.offset_ns, le_int_refl high, le_int_refl x.offset_ns) in
    (
      (under.1, over.1),
      All-weaken (Between low high) (Between low' high') (xs ++ (last ∷ []))
          (λ y (h, k). (
            le_int_trans low' low y.offset_ns under.0 h,
            le_int_trans y.offset_ns high high' k over.0,
          ))
          (offsets-Between xs last),
    )

best_sample-Some :
    (xs : List ClockSample) (last : ClockSample)
    → Some (λ x. x ≡ best_sample xs last) (xs ++ (last ∷ []))
unfolding best_sample
best_sample-Some [] last = inl refl
best_sample-Some (x ∷ xs) last = elim (Bool-cases (leb x.rtt_ns (best_sample xs last).rtt_ns)) [
  | inl e ↦ inl (ground (arith, e))
  | inr e ↦
      let same : best_sample (x ∷ xs) last ≡ best_sample xs last = ground (arith, e) in
      inr (subst (λ b. Some (λ y. y ≡ b) (xs ++ (last ∷ []))) (sym same) (best_sample-Some xs last))
]

min_offset-Some :
    (xs : List ClockSample) (last : ClockSample)
    → Some (λ x. x.offset_ns ≡ min_offset xs last) (xs ++ (last ∷ []))
unfolding min_offset
min_offset-Some [] last = inl refl
min_offset-Some (x ∷ xs) last = elim (Bool-cases (le_int x.offset_ns (min_offset xs last))) [
  | inl e ↦ inl (rw e refl)
  | inr e ↦
      let same : min_offset (x ∷ xs) last ≡ min_offset xs last = rw (min_offset, e) refl in
      inr (
        subst (λ n. Some (λ y. y.offset_ns ≡ n) (xs ++ (last ∷ []))) (sym same)
          (min_offset-Some xs last))
]

max_offset-Some :
    (xs : List ClockSample) (last : ClockSample)
    → Some (λ x. x.offset_ns ≡ max_offset xs last) (xs ++ (last ∷ []))
unfolding max_offset
max_offset-Some [] last = inl refl
max_offset-Some (x ∷ xs) last = elim (Bool-cases (le_int (max_offset xs last) x.offset_ns)) [
  | inl e ↦ inl (rw e refl)
  | inr e ↦
      let same : max_offset (x ∷ xs) last ≡ max_offset xs last = rw (max_offset, e) refl in
      inr (
        subst (λ n. Some (λ y. y.offset_ns ≡ n) (xs ++ (last ∷ []))) (sym same)
          (max_offset-Some xs last))
]

-- An estimate of the samples: the offset of one that is as quick as any, uncertain by half its round
-- trip and half the distance, in i64, of their least and their greatest offset.
abbrev pub IsEstimate : List ClockSample → ClockOffsetEstimate → Type 0
IsEstimate samples est =
    (best : ClockSample) × (low : ℤ) × (high : ℤ) × Some (λ x. x ≡ best) samples
    × Some (λ x. x.offset_ns ≡ low) samples
    × Some (λ x. x.offset_ns ≡ high) samples
    × All (Slower best) samples
    × All (Between low high) samples
    × (est.offset_ns ≡ best.offset_ns)
    × (est.uncertainty_ns ≡ best.rtt_ns / 2 + unsigned_abs (sub_i64 high low) / 2)

-- An accepted exchange makes current an estimate with the offset of a kept sample as quick as any,
-- uncertain by half its round trip and half the i64 distance of the least and the greatest offset
-- kept, each the offset of a kept sample.
pub process-IsEstimate :
    (s : ClockSynchronizer) (c : ClockChallenge) (r : ClockResponse) (t3 : ℕ)
    → IsExchange c r t3
    → let (s', result) = process_response s c r t3 in
      (est : ClockOffsetEstimate) × (result ≡ ok est)
      × (s'.current_estimate ≡ some est)
      × (s'.consecutive_failures ≡ 0)
      × IsEstimate s'.accepted_samples est
unfolding accept estimate_of
process-IsEstimate s c r t3 x =
    let old = make_room s.accepted_samples in
    rw (process-accept s c r t3 x) (
      _,
      refl,
      refl,
      refl,
      (
        _,
        _,
        _,
        best_sample-Some old _,
        min_offset-Some old _,
        max_offset-Some old _,
        best_sample-Slower old _,
        offsets-Between old _,
        refl,
        refl,
      ),
    )
