-- ===== src/Tempus/Pacing.antt =====
-- The times at which `runNode` takes its steps.
use cs.Prelude.{ℕ, zero, suc, ◌+◌, ◌*◌, ◌/◌, ◌<◌, ◌≡◌, ap, ◌∙◌, ◌==◌, if◌then◌else◌, arith}

-- In nanoseconds.
abbrev pub second : ℕ
second = 1000000000

pub record Pace : Type 0 where
  pub now : ℕ
  pub large_now : ℕ
  pub large_count : ℕ

abbrev pub start_at : ℕ → Pace
start_at now = record { now = now; large_now = now; large_count = 0 }

-- The end of the body of the loop, up to `sleep_until(now)`.
pub next_pace : ℕ → Pace → Pace
next_pace clock_rate p =
    let large_count = p.large_count + 1 in
    let large_now = p.large_now + second in
    if large_count == clock_rate
    then record { now = large_now; large_now = large_now; large_count = 0 }
    else record p { now = p.now + second / clock_rate; large_count = large_count }

pub pace_after : ℕ → Pace → ℕ → Pace
pace_after clock_rate p zero = p
pace_after clock_rate p (suc steps) = next_pace clock_rate (pace_after clock_rate p steps)

pace_within :
    (clock_rate t steps : ℕ)
    → steps < clock_rate
    → pace_after clock_rate (start_at t) steps
      ≡ record { now = t + steps * (second / clock_rate); large_now = t; large_count = steps }
unfolding pace_after next_pace
pace_within clock_rate t zero h = ground arith
pace_within clock_rate t (suc steps) h =
    ground (arith, pace_within clock_rate t steps (omega arith))

pace_second :
    (clock_rate t : ℕ)
    → 0 < clock_rate
    → pace_after clock_rate (start_at t) clock_rate ≡ start_at (t + second)
unfolding pace_after next_pace
pace_second zero t h = absurd (omega arith)
pace_second (suc k) t h = ground (arith, pace_within (suc k) t k (omega arith))

pace_add :
    (clock_rate : ℕ) (p : Pace) (a b : ℕ)
    → pace_after clock_rate p (a + b) ≡ pace_after clock_rate (pace_after clock_rate p a) b
unfolding pace_after
pace_add clock_rate p a zero = ap (pace_after clock_rate p) {x = a + 0} {y = a} (omega arith)
pace_add clock_rate p a (suc b) =
    ap (pace_after clock_rate p) {x = a + suc b} {y = suc (a + b)} (omega arith)
    ∙ ap (next_pace clock_rate) (pace_add clock_rate p a b)

pace_seconds :
    (clock_rate t seconds : ℕ)
    → 0 < clock_rate
    → pace_after clock_rate (start_at t) (seconds * clock_rate) ≡ start_at (t + seconds * second)
pace_seconds clock_rate t zero h =
    ap (pace_after clock_rate (start_at t)) {x = 0 * clock_rate} {y = 0} (omega arith)
    ∙ (unfold pace_after in ap start_at {x = t} {y = t + 0 * second} (omega arith))
pace_seconds clock_rate t (suc seconds) h =
    ap (pace_after clock_rate (start_at t)) (omega arith)
    ∙ pace_add clock_rate (start_at t) (seconds * clock_rate) clock_rate
    ∙ ap (λ (p : Pace). pace_after clock_rate p clock_rate) (pace_seconds clock_rate t seconds h)
    ∙ pace_second clock_rate (t + seconds * second) h
    ∙ ap start_at (omega arith)

-- The steps do not drift: with `clock_rate` steps a second, step `seconds * clock_rate + steps` is
-- taken that many whole seconds and `steps` rounded fractions of a second after the start.
pub next_pace-steady :
    (clock_rate t seconds steps : ℕ)
    → steps < clock_rate
    → pace_after clock_rate (start_at t) (seconds * clock_rate + steps) ≡ record {
      now = t + seconds * second + steps * (second / clock_rate);
      large_now = t + seconds * second;
      large_count = steps;
    }
next_pace-steady clock_rate t seconds steps h =
    pace_add clock_rate (start_at t) (seconds * clock_rate) steps
    ∙ ap (λ (p : Pace). pace_after clock_rate p steps)
        (pace_seconds clock_rate t seconds (omega arith))
    ∙ pace_within clock_rate (t + seconds * second) steps h
