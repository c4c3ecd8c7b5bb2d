-- ===== src/Poll/Start/Tests.antt =====
-- The start of a mixed poll in source/tssx/poll-overrides.c at a small input, and the theorems about it there.
use tssx.Base.{◌≡◌, refl, Bool, true, false, ◌&&◌}
use tssx.Poll.Start.{
  asleep, through, started, Start, unstarted, holds_tssx, holds_normal, locks_tssx, goes_to_wait,
  sleeps, Reach, here, next,
}
use tssx.Poll.Start.Runs.{has_signalled, Reach-starts, Reach-finishes}

-- The calling thread waits, and the new one has not run yet.
abbrev waits : Start
waits = record unstarted { tssx = asleep }

waits-Reach : (spurious : Bool) → Reach spurious unstarted waits
waits-Reach spurious =
    next (next (next here (locks_tssx refl refl)) (goes_to_wait refl refl)) (sleeps refl)

Reach-starts_example :
    (holds_tssx waits.tssx && holds_normal waits.normal ≡ false)
    × (waits.tssx ≡ through → waits.normal_thread_ready ≡ true)
    × (waits.tssx ≡ asleep → has_signalled waits.normal ≡ false)
Reach-starts_example = Reach-starts true waits (waits-Reach true)

Reach-finishes_example :
    (s' : Start) × Reach false waits s' × (s'.tssx ≡ through) × (s'.normal ≡ started)
Reach-finishes_example = Reach-finishes waits (waits-Reach false)
