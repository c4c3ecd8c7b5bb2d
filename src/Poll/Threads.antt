-- ===== src/Poll/Threads.antt =====
-- `_concurrent_poll` of source/tssx/poll-overrides.c: the thread that polls the normal descriptors
-- (`_normal_poll`) and the one that scans the connected ones (`_concurrent_tssx_poll`) share an atomic
-- count. Each step below is one load, store or addition of that count, or local to a thread; the two
-- threads take their steps in any order. The start of the threads and their hand-shake succeed.
use tssx.Base.{
  ℕ, ◌+◌, ◌-◌, ◌<◌, ◌≡◌, ◌≢◌, refl, ap, Bool, true, false, size_error, size_modulus, add_size,
  arith,
}

-- What `real_poll` returned: an error, an interruption by the signal of the other thread, or a count.
pub data Polled : Type 0 where
  failed interrupted : Polled
  ready : ℕ → Polled

-- `_normal_poll`: before the load that decides whether to poll, in `real_poll`, behind it, behind the
-- load that looks for an error, and over.
pub data NormalThread : Type 0 where
  starting polling : NormalThread
  polled checked : Polled → NormalThread
  over : NormalThread

-- `_concurrent_tssx_poll`, with the number of events found: before a scan, behind it, before the last
-- addition, and over.
pub data TssxThread : Type 0 where
  scanning scanned adding : ℕ → TssxThread
  ended : TssxThread

-- The count as the bits of an `atomic_int_fast16_t`, which has 64 of them. The last three fields are
-- for the record: what each thread added, and whether an error was stored.
pub record Polling : Type 0 where
  pub event_count : ℕ
  pub normal : NormalThread
  pub tssx : TssxThread
  pub normal_added : ℕ
  pub tssx_added : ℕ
  pub stored_error : Bool

abbrev pub initial : Polling
initial = record {
  event_count = 0;
  normal = starting;
  tssx = scanning 0;
  normal_added = 0;
  tssx_added = 0;
  stored_error = false;
}

pub data Step (s : Polling) : Polling → Type 0 where
  begin_poll : s.normal ≡ starting → s.event_count ≡ 0 → Step s (record s { normal = polling })
  skip_poll :
      s.normal ≡ starting → s.event_count ≢ 0 → Step s (record s { normal = polled (ready 0) })
  return_poll : (r : Polled) → s.normal ≡ polling → Step s (record s { normal = polled r })
  see_error :
      (r : Polled)
      → s.normal ≡ polled r
      → s.event_count ≡ size_error
      → Step s (record s { normal = over })
  see_none :
      (r : Polled)
      → s.normal ≡ polled r
      → s.event_count ≢ size_error
      → Step s (record s { normal = checked r })
  store_error :
      s.normal ≡ checked failed
      → Step s (record s { normal = over; event_count = size_error; stored_error = true })
  give_up : s.normal ≡ checked interrupted → Step s (record s { normal = over })
  add_normal :
      (n : ℕ)
      → s.normal ≡ checked (ready n)
      → Step s
          (record s { normal = over; event_count = add_size s.event_count n; normal_added = n })
  scan_tssx :
      (found more : ℕ)
      → s.tssx ≡ scanning found
      → Step s (record s { tssx = scanned (found + more) })
  stop_on_error :
      (found : ℕ)
      → s.tssx ≡ scanned found
      → s.event_count ≡ size_error
      → Step s (record s { tssx = ended })
  stop_scanning :
      (found : ℕ)
      → s.tssx ≡ scanned found
      → s.event_count ≢ size_error
      → Step s (record s { tssx = adding found })
  scan_again : s.tssx ≡ scanned 0 → s.event_count ≡ 0 → Step s (record s { tssx = scanning 0 })
  add_tssx :
      (found : ℕ)
      → s.tssx ≡ adding found
      → Step s (record s {
        tssx = ended;
        event_count = add_size s.event_count found;
        tssx_added = found;
      })

pub data Reach (s : Polling) : Polling → Type 0 where
  here : Reach s s
  next : {t u : Polling} → Reach s t → Step t u → Reach s u

abbrev pub is_over : NormalThread → Bool
is_over over = true
is_over _ = false

abbrev pub is_ended : TssxThread → Bool
is_ended ended = true
is_ended _ = false

-- While no error is stored, the count is what the threads have added; each adds in its last step.
record Accounted (s : Polling) : Type 0 where
  sum : s.stored_error ≡ false → s.event_count ≡ add_size s.normal_added s.tssx_added
  normal_last : is_over s.normal ≡ false → s.normal_added ≡ 0
  tssx_last : is_ended s.tssx ≡ false → s.tssx_added ≡ 0

-- A step that adds nothing.
idle_step :
    {s : Polling} (n : NormalThread) (t : TssxThread)
    → Accounted s
    → (is_over n ≡ false → is_over s.normal ≡ false)
    → (is_ended t ≡ false → is_ended s.tssx ≡ false)
    → Accounted (record s { normal = n; tssx = t })
idle_step n t a f g = record {
  sum = a.sum;
  normal_last = λ e. a.normal_last (f e);
  tssx_last = λ e. a.tssx_last (g e);
}

Step-Accounted : {s t : Polling} → Step s t → Accounted s → Accounted t
Step-Accounted {s} (begin_poll p z) a = idle_step polling s.tssx a (λ _. ap is_over p) (λ e. e)
Step-Accounted {s} (skip_poll p z) a =
    idle_step (polled (ready 0)) s.tssx a (λ _. ap is_over p) (λ e. e)
Step-Accounted {s} (return_poll r p) a = idle_step (polled r) s.tssx a (λ _. ap is_over p) (λ e. e)
Step-Accounted {s} (see_error r p z) a = idle_step over s.tssx a (λ e. absurd cc) (λ e. e)
Step-Accounted {s} (see_none r p z) a = idle_step (checked r) s.tssx a (λ _. ap is_over p) (λ e. e)
Step-Accounted {s} (store_error p) a = record {
  sum = λ e. absurd cc;
  normal_last = λ e. absurd cc;
  tssx_last = a.tssx_last;
}
Step-Accounted {s} (give_up p) a = idle_step over s.tssx a (λ e. absurd cc) (λ e. e)
Step-Accounted {s} (add_normal n p) a = record {
  sum = λ e. let z = a.normal_last (ap is_over p) in let h = a.sum e in omega (arith, z, h);
  normal_last = λ e. absurd cc;
  tssx_last = a.tssx_last;
}
Step-Accounted {s} (scan_tssx found more p) a =
    idle_step s.normal (scanned (found + more)) a (λ e. e) (λ _. ap is_ended p)
Step-Accounted {s} (stop_on_error found p z) a =
    idle_step s.normal ended a (λ e. e) (λ e. absurd cc)
Step-Accounted {s} (stop_scanning found p z) a =
    idle_step s.normal (adding found) a (λ e. e) (λ _. ap is_ended p)
Step-Accounted {s} (scan_again p z) a =
    idle_step s.normal (scanning 0) a (λ e. e) (λ _. ap is_ended p)
Step-Accounted {s} (add_tssx found p) a = record {
  sum = λ e. let z = a.tssx_last (ap is_ended p) in let h = a.sum e in omega (arith, z, h);
  normal_last = a.normal_last;
  tssx_last = λ e. absurd cc;
}

Reach-Accounted : {s t : Polling} → Reach s t → Accounted s → Accounted t
Reach-Accounted here a = a
Reach-Accounted (next r st) a = Step-Accounted st (Reach-Accounted r a)

initial-Accounted : Accounted initial
initial-Accounted = record { sum = λ e. refl; normal_last = λ e. refl; tssx_last = λ e. refl }

-- In whatever order the threads take their steps, the count that they share is, as long as no error has
-- been stored in it, the sum of what the two have added.
pub Reach-sum :
    (s : Polling)
    → Reach initial s
    → s.stored_error ≡ false
    → s.event_count ≡ add_size s.normal_added s.tssx_added
Reach-sum s r e = (Reach-Accounted r initial-Accounted).sum e

-- The addition of the scanning thread may come behind an error that the other has stored: when it found
-- `found` events, both threads can end with the count at `found - 1`, and `poll` returns that in place
-- of ERROR.
pub Reach-lost_error :
    (found : ℕ)
    → 0 < found
    → found < size_modulus
    → (s : Polling) × Reach initial s
      × (s.normal ≡ over)
      × (s.tssx ≡ ended)
      × (s.stored_error ≡ true)
      × (s.event_count ≡ found - 1)
Reach-lost_error found pos small =
    let s₁ = record initial { normal = polling } in
    let s₂ = record initial { normal = polled failed } in
    let s₃ = record initial { normal = checked failed } in
    let s₄ = record s₃ { tssx = scanned (0 + found) } in
    let s₅ = record s₃ { tssx = adding (0 + found) } in
    let s₆ = record s₅ { normal = over; event_count = size_error; stored_error = true } in
    (
      record s₆ {
        tssx = ended;
        event_count = add_size size_error (0 + found);
        tssx_added = 0 + found;
      },
      next
          (next
            (next
              (next
                (next (next (next here (begin_poll refl refl)) (return_poll failed refl))
                  (see_none failed refl (λ e. absurd (omega (arith, e)))))
                (scan_tssx 0 found refl))
              (stop_scanning (0 + found) refl (λ e. absurd (omega (arith, e)))))
            (store_error refl))
          (add_tssx (0 + found) refl),
      refl,
      refl,
      refl,
      omega arith,
    )
