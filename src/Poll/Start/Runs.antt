-- ===== src/Poll/Start/Runs.antt =====
-- What the start of a mixed poll in source/tssx/poll-overrides.c comes to, in whatever order its threads run.
use tssx.Base.{◌≡◌, ◌≢◌, refl, sym, ap, ◌∙◌, subst, Bool, true, false, ◌&&◌}
use tssx.Poll.Start.{
  TssxStart, locking, testing, entering, asleep, relocking, unlocking, through, NormalStart,
  to_lock, to_set, to_signal, to_unlock, started, Start, unstarted, holds_tssx, holds_normal, woken,
  Step, locks_tssx, goes_to_wait, sleeps, wakes, relocks, leaves, unlocks_tssx, locks_normal, sets,
  signals, unlocks_normal, Reach, here, next,
}

abbrev has_set : NormalStart → Bool
has_set to_lock = false
has_set to_set = false
has_set _ = true

abbrev pub has_signalled : NormalStart → Bool
has_signalled to_unlock = true
has_signalled started = true
has_signalled _ = false

abbrev is_leaving : TssxStart → Bool
is_leaving unlocking = true
is_leaving through = true
is_leaving _ = false

abbrev is_asleep : TssxStart → Bool
is_asleep asleep = true
is_asleep _ = false

abbrev is_entering : TssxStart → Bool
is_entering entering = true
is_entering _ = false

-- The flag is set behind the write. A thread that is about to wait has seen it unset and holds the mutex,
-- so that the other one cannot set it in between.
record Fine (s : Start) : Type 0 where
  flag : s.normal_thread_ready ≡ has_set s.normal
  exclusive : holds_tssx s.tssx && holds_normal s.normal ≡ false
  leaving : is_leaving s.tssx ≡ true → s.normal_thread_ready ≡ true
  waiting : is_asleep s.tssx ≡ true → has_signalled s.normal ≡ false
  unset : is_entering s.tssx ≡ true → has_set s.normal ≡ false

unstarted-Fine : Fine unstarted
unstarted-Fine = record {
  flag = refl;
  exclusive = refl;
  leaving = λ e. absurd cc;
  waiting = λ e. absurd cc;
  unset = λ e. absurd cc;
}

unset-unsignalled : (n : NormalStart) → has_set n ≡ false → has_signalled n ≡ false
unset-unsignalled to_lock e = refl
unset-unsignalled to_set e = refl
unset-unsignalled to_signal e = absurd cc
unset-unsignalled to_unlock e = absurd cc
unset-unsignalled started e = absurd cc

and_false : (b : Bool) → b && false ≡ false
and_false true = refl
and_false false = refl

entering-holds : (t : TssxStart) → is_entering t ≡ true → holds_tssx t && true ≡ true
entering-holds entering e = refl
entering-holds locking e = absurd cc
entering-holds testing e = refl
entering-holds asleep e = absurd cc
entering-holds relocking e = absurd cc
entering-holds unlocking e = refl
entering-holds through e = absurd cc

-- A thread that is woken neither holds the mutex nor leaves for that, and is not asleep.
woken_lem :
    (t : TssxStart)
    → (holds_tssx (woken t) ≡ holds_tssx t)
      × (is_leaving (woken t) ≡ is_leaving t)
      × (is_asleep (woken t) ≡ false)
      × (is_entering (woken t) ≡ is_entering t)
woken_lem locking = (refl, refl, refl, refl)
woken_lem testing = (refl, refl, refl, refl)
woken_lem entering = (refl, refl, refl, refl)
woken_lem asleep = (refl, refl, refl, refl)
woken_lem relocking = (refl, refl, refl, refl)
woken_lem unlocking = (refl, refl, refl, refl)
woken_lem through = (refl, refl, refl, refl)

Step-Fine : {spurious : Bool} {s t : Start} → Step spurious s t → Fine s → Fine t
Step-Fine (locks_tssx p free) f = record {
  flag = f.flag;
  exclusive = free;
  leaving = λ e. absurd cc;
  waiting = λ e. absurd cc;
  unset = λ e. absurd cc;
}
Step-Fine {s = s} (goes_to_wait p seen) f = record {
  flag = f.flag;
  exclusive = ap (λ t. holds_tssx t && holds_normal s.normal) (sym p) ∙ f.exclusive;
  leaving = λ e. absurd cc;
  waiting = λ e. absurd cc;
  unset = λ e. sym f.flag ∙ seen;
}
Step-Fine {s = s} (sleeps p) f = record {
  flag = f.flag;
  exclusive = refl;
  leaving = λ e. absurd cc;
  waiting = λ e. unset-unsignalled s.normal (f.unset (ap is_entering p));
  unset = λ e. absurd cc;
}
Step-Fine (wakes p _) f = record {
  flag = f.flag;
  exclusive = refl;
  leaving = λ e. absurd cc;
  waiting = λ e. absurd cc;
  unset = λ e. absurd cc;
}
Step-Fine (relocks p free) f = record {
  flag = f.flag;
  exclusive = free;
  leaving = λ e. absurd cc;
  waiting = λ e. absurd cc;
  unset = λ e. absurd cc;
}
Step-Fine {s = s} (leaves p set) f = record {
  flag = f.flag;
  exclusive = ap (λ t. holds_tssx t && holds_normal s.normal) (sym p) ∙ f.exclusive;
  leaving = λ e. set;
  waiting = λ e. absurd cc;
  unset = λ e. absurd cc;
}
Step-Fine (unlocks_tssx p) f = record {
  flag = f.flag;
  exclusive = refl;
  leaving = λ e. f.leaving (ap is_leaving p);
  waiting = λ e. absurd cc;
  unset = λ e. absurd cc;
}
Step-Fine {s = s} (locks_normal p free) f = record {
  flag = f.flag ∙ ap has_set p;
  exclusive = ap (λ b. b && true) free;
  leaving = f.leaving;
  waiting = λ e. refl;
  unset = λ e. refl;
}
Step-Fine {s = s} (sets p) f = record {
  flag = refl;
  exclusive = ap (λ n. holds_tssx s.tssx && holds_normal n) (sym p) ∙ f.exclusive;
  leaving = λ e. refl;
  waiting = λ e. refl;
  unset = λ e.
      let held = ap (λ n. holds_tssx s.tssx && holds_normal n) (sym p) ∙ f.exclusive in
      let q : true ≡ false = sym (entering-holds s.tssx e) ∙ held in absurd cc;
}
Step-Fine {s = s} (signals p) f =
    let (holds, left, awake, enters) = woken_lem s.tssx in
    record {
      flag = f.flag ∙ ap has_set p;
      exclusive =
          ap (λ b. b && true) holds
          ∙ ap (λ n. holds_tssx s.tssx && holds_normal n) (sym p)
          ∙ f.exclusive;
      leaving = λ e. f.leaving (sym left ∙ e);
      waiting = λ e. let q : true ≡ false = sym e ∙ awake in absurd cc;
      unset = λ e. ap has_set (sym p) ∙ f.unset (sym enters ∙ e);
    }
Step-Fine {s = s} (unlocks_normal p) f = record {
  flag = f.flag ∙ ap has_set p;
  exclusive = and_false (holds_tssx s.tssx);
  leaving = f.leaving;
  waiting = λ e. let q : true ≡ false = ap has_signalled (sym p) ∙ f.waiting e in absurd cc;
  unset = λ e. ap has_set (sym p) ∙ f.unset e;
}

Reach-Fine : {spurious : Bool} {s t : Start} → Reach spurious s t → Fine s → Fine t
Reach-Fine here f = f
Reach-Fine (next r st) f = Step-Fine st (Reach-Fine r f)

-- In whatever order the threads take their steps, and whether or not a wait may end without a signal: the
-- two never hold the mutex at once; the calling thread goes on only when the new one has set the flag;
-- and it does not wait any more when the new one has signalled.
pub Reach-starts :
    (spurious : Bool) (s : Start)
    → Reach spurious unstarted s
    → (holds_tssx s.tssx && holds_normal s.normal ≡ false)
      × (s.tssx ≡ through → s.normal_thread_ready ≡ true)
      × (s.tssx ≡ asleep → has_signalled s.normal ≡ false)
Reach-starts spurious s r =
    let f = Reach-Fine r unstarted-Fine in
    (f.exclusive, λ e. f.leaving (ap is_leaving e), λ e. f.waiting (ap is_asleep e))

-- The calling thread gives the mutex up, by a wait or by going on.
released :
    (t : TssxStart) (n : NormalStart) (b : Bool)
    → let s : Start = record { normal_thread_ready = b; tssx = t; normal = n } in
      (t' : TssxStart) × Reach false s (record s { tssx = t' }) × (holds_tssx t' ≡ false)
released locking n b = (locking, here, refl)
released testing n true = (through, next (next here (leaves refl refl)) (unlocks_tssx refl), refl)
released testing n false = (asleep, next (next here (goes_to_wait refl refl)) (sleeps refl), refl)
released entering n b = (asleep, next here (sleeps refl), refl)
released asleep n b = (asleep, here, refl)
released relocking n b = (relocking, here, refl)
released unlocking n b = (through, next here (unlocks_tssx refl), refl)
released through n b = (through, here, refl)

-- The new thread then gets through.
signalled :
    (t : TssxStart) (n : NormalStart) (b : Bool)
    → holds_tssx t ≡ false
    → let s : Start = record { normal_thread_ready = b; tssx = t; normal = n } in
      (s' : Start) × Reach false s s' × (s'.normal ≡ started) × (holds_tssx s'.tssx ≡ false)
signalled t to_lock b free = (
  _,
  next (next (next (next here (locks_normal refl free)) (sets refl)) (signals refl))
      (unlocks_normal refl),
  refl,
  (woken_lem t).0 ∙ free,
)
signalled t to_set b free = (
  _,
  next (next (next here (sets refl)) (signals refl)) (unlocks_normal refl),
  refl,
  (woken_lem t).0 ∙ free,
)
signalled t to_signal b free =
    (_, next (next here (signals refl)) (unlocks_normal refl), refl, (woken_lem t).0 ∙ free)
signalled t to_unlock b free = (_, next here (unlocks_normal refl), refl, free)
signalled t started b free = (_, here, refl, free)

-- And the calling thread behind it.
passed :
    (t : TssxStart) (b : Bool)
    → holds_tssx t ≡ false
    → b ≡ true
    → t ≢ asleep
    → let s : Start = record { normal_thread_ready = b; tssx = t; normal = started } in
      (s' : Start) × Reach false s s' × (s'.tssx ≡ through) × (s'.normal ≡ started)
passed locking b free set awake = (
  _,
  next (next (next here (locks_tssx refl refl)) (leaves refl set)) (unlocks_tssx refl),
  refl,
  refl,
)
passed testing b free set awake = absurd cc
passed entering b free set awake = absurd cc
passed asleep b free set awake = absurd (awake refl)
passed relocking b free set awake = (
  _,
  next (next (next here (relocks refl refl)) (leaves refl set)) (unlocks_tssx refl),
  refl,
  refl,
)
passed unlocking b free set awake = absurd cc
passed through b free set awake = (_, here, refl, refl)

join_runs : {s t u : Start} → Reach false s t → Reach false t u → Reach false s u
join_runs r here = r
join_runs r (next r' st) = next (join_runs r r') st

-- No order of the steps loses the signal: from each state that the threads come to, where a wait ends by
-- a signal only, they can go on until both are through.
pub Reach-finishes :
    (s : Start)
    → Reach false unstarted s
    → (s' : Start) × Reach false s s' × (s'.tssx ≡ through) × (s'.normal ≡ started)
Reach-finishes s r =
    let (t', r₁, free) = released s.tssx s.normal s.normal_thread_ready in
    let (s₂, r₂, up, free₂) = signalled t' s.normal s.normal_thread_ready free in
    let run = join_runs (join_runs r r₁) r₂ in
    let f = Reach-Fine run unstarted-Fine in
    let set : s₂.normal_thread_ready ≡ true = f.flag ∙ ap has_set up in
    let awake : s₂.tssx ≢ asleep = λ e.
      let q : true ≡ false = ap has_signalled (sym up) ∙ f.waiting (ap is_asleep e) in absurd cc in
    let (s₃, r₃, over, up₃) = passed s₂.tssx s₂.normal_thread_ready free₂ set awake in
    let back : Reach false s₂ s₃ =
      subst
        (λ n.
          Reach false
            (record { normal_thread_ready = s₂.normal_thread_ready; tssx = s₂.tssx; normal = n })
            s₃)
        (sym up) r₃ in
    (s₃, join_runs (join_runs r₁ r₂) back, over, up₃)
