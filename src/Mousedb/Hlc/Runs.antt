-- ===== src/Mousedb/Hlc/Runs.antt =====
-- Runs of the clock.
use cs.Prelude.{map, some, ℕ, ◌≡◌, refl, true, false, none, some, List, [], ◌∷◌, arith}
use cs.Mousedb.Hlc.{Hlc, Round, Event, pack, attempt, advance, run}
use cs.Mousedb.Hlc.Advance.{Commits, advance-Commits, advance_returns}
use cs.Mousedb.Hlc.Wide.{fresh, run_forgets, stamp, send_at}

-- Another thread stores 7 between the first load and the first exchange.
abbrev contended : List Round
contended =
    record { now = 5; current = 7; spurious = false }
    ∷ record { now = 6; current = 7; spurious = true }
    ∷ record { now = 8; current = 7; spurious = false }
    ∷ []

contended_returns : advance 1 none 3 contended ≡ some (attempt 1 7 8 none, pack 8 0)
unfolding advance
contended_returns = refl

advance-Commits_example : Commits 1 none contended (attempt 1 7 8 none) (pack 8 0)
advance-Commits_example =
    advance-Commits 1 none 3 contended (attempt 1 7 8 none) (pack 8 0) contended_returns

advance_returns_example : (p : Hlc × ℕ) × (advance 1 none 3 contended ≡ some p)
advance_returns_example =
    advance_returns 1 none 3 (record { now = 5; current = 7; spurious = false } ∷ [])
      (record { now = 6; current = 7; spurious = true })
      (record { now = 8; current = 7; spurious = false }) [] refl refl

abbrev mixed_events : List Event
mixed_events =
    send_at 10
    ∷ record { now = 4; remote = some (record { physical_us = 12; logical = 3; node_id = 2 }) }
    ∷ send_at 12
    ∷ []

mixed_clocks :
    run 1 0 mixed_events
    ≡ stamp 1 10
      ∷ record { physical_us = 12; logical = 4; node_id = 1 }
      ∷ record { physical_us = 12; logical = 5; node_id = 1 }
      ∷ []
unfolding run
mixed_clocks = refl

-- In 2024: two sends in one microsecond, a step back, and a message from the future.
abbrev this_century : List Event
this_century =
    send_at 1704067200000000
    ∷ send_at 1704067200000000
    ∷ send_at 1704067199000000
    ∷ record {
      now = 1704067199000001;
      remote = some (record { physical_us = 1704067300000000; logical = 4; node_id = 2 });
    }
    ∷ []

run_forgets_example :
    run 1 0 this_century ≡ map (λ (e : Event). fresh 1 e.now e.remote) this_century
run_forgets_example =
    run_forgets 1 0 this_century (omega arith)
      (omega arith, (omega arith, (omega arith, (omega arith, tt))))
