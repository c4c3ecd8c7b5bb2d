-- ===== src/Poll/Start.antt =====
-- The start of the two threads of a mixed poll in source/tssx/poll-overrides.c: `_wait_for_normal_thread`
-- in the calling thread and `_signal_tssx_thread` in the new one share a mutex, a condition and a flag.
-- The calls of the threads library succeed; the mutex is held by the thread that stands between its lock
-- and its unlock, and given up in a wait for the condition, which may also end without a signal.
pub mod Runs
mod Tests
use tssx.Base.{◌≡◌, Bool, true, false}

-- `_wait_for_normal_thread`: before the lock, at the test of the flag, at the call of the wait for the
-- condition, where the mutex is still held, in that wait, before it takes the mutex again, before the
-- unlock, and through.
pub data TssxStart : Type 0 where
  locking testing entering asleep relocking unlocking through : TssxStart

-- `_signal_tssx_thread`: before the lock, the write of the flag, the signal and the unlock, and through.
pub data NormalStart : Type 0 where
  to_lock to_set to_signal to_unlock started : NormalStart

pub record Start : Type 0 where
  pub normal_thread_ready : Bool
  pub tssx : TssxStart
  pub normal : NormalStart

-- `_normal_thread_ready` is reset before the thread is made.
abbrev pub unstarted : Start
unstarted = record { normal_thread_ready = false; tssx = locking; normal = to_lock }

abbrev pub holds_tssx : TssxStart → Bool
holds_tssx testing = true
holds_tssx entering = true
holds_tssx unlocking = true
holds_tssx _ = false

abbrev pub holds_normal : NormalStart → Bool
holds_normal to_lock = false
holds_normal started = false
holds_normal _ = true

-- A signal wakes the thread that waits.
abbrev pub woken : TssxStart → TssxStart
woken asleep = relocking
woken other = other

-- `spurious` says whether a wait may end without a signal.
pub data Step (spurious : Bool) (s : Start) : Start → Type 0 where
  locks_tssx :
      s.tssx ≡ locking
      → holds_normal s.normal ≡ false
      → Step spurious s (record s { tssx = testing })
  goes_to_wait :
      s.tssx ≡ testing
      → s.normal_thread_ready ≡ false
      → Step spurious s (record s { tssx = entering })
  sleeps : s.tssx ≡ entering → Step spurious s (record s { tssx = asleep })
  wakes : s.tssx ≡ asleep → spurious ≡ true → Step spurious s (record s { tssx = relocking })
  relocks :
      s.tssx ≡ relocking
      → holds_normal s.normal ≡ false
      → Step spurious s (record s { tssx = testing })
  leaves :
      s.tssx ≡ testing
      → s.normal_thread_ready ≡ true
      → Step spurious s (record s { tssx = unlocking })
  unlocks_tssx : s.tssx ≡ unlocking → Step spurious s (record s { tssx = through })
  locks_normal :
      s.normal ≡ to_lock
      → holds_tssx s.tssx ≡ false
      → Step spurious s (record s { normal = to_set })
  sets :
      s.normal ≡ to_set
      → Step spurious s (record s { normal = to_signal; normal_thread_ready = true })
  signals :
      s.normal ≡ to_signal → Step spurious s (record s { normal = to_unlock; tssx = woken s.tssx })
  unlocks_normal : s.normal ≡ to_unlock → Step spurious s (record s { normal = started })

pub data Reach (spurious : Bool) (s : Start) : Start → Type 0 where
  here : Reach spurious s s
  next : {t u : Start} → Reach spurious s t → Step spurious t u → Reach spurious s u
