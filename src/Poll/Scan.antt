-- ===== src/Poll/Scan.antt =====
-- One scan of source/tssx/poll-overrides.c over connected descriptors, against what each should show.
use tssx.Base.{
  ℕ, suc, ◌≡◌, refl, sym, ap, ◌∙◌, Bool, false, not, List, [], ◌∷◌, ◌++◌, map, length, ◌&&◌, ◌||◌,
  if◌then◌else◌, Bool-cases, inl, inr, append_assoc, length-append, get_elem?-middle, set-middle,
  arith,
}
use tssx.Buffer.{Operation, read, write}
use tssx.Connection.{Connection, Segment, Side}
use tssx.Overrides.{ready_for}
use tssx.Poll.{
  PollEvents, PollFd, PollEntry, View, no_events, waiting_for, tell_that_ready_for, entry_peer_died,
  check_ready, check_poll_events, check_entry, scan,
}

-- A descriptor is ready for an operation that it waits for, and whether anything is to be told.
abbrev pub wanted : Side → Segment → PollFd → Operation → Bool
wanted side s p operation = waiting_for p operation && ready_for side s operation

abbrev pub is_busy : Side → Segment → PollFd → Bool
is_busy side s p = entry_peer_died s || (wanted side s p read || wanted side s p write)

-- What the descriptor should show: a hangup is also a read event, and is told to everyone.
abbrev pub answer : Side → Segment → PollFd → PollFd
answer side s p = record p {
  revents = record {
    pollin = entry_peer_died s || wanted side s p read;
    pollout = not (entry_peer_died s) && wanted side s p write;
    pollerr = false;
    pollhup = entry_peer_died s;
    pollnval = false;
  };
}

check_poll_events_lem :
    (side : Side) (s : Segment) (fd : ℕ) (events : PollEvents)
    → let p : PollFd = record { fd = fd; events = events; revents = no_events } in
      check_poll_events side s p ≡ (is_busy side s p, answer side s p)
unfolding check_poll_events check_ready waiting_for tell_that_ready_for
check_poll_events_lem side s fd events = ground arith

-- A descriptor that is polled, with its connection.
pub record Watched : Type 0 where
  pub connection : Connection
  pub fd : ℕ
  pub events : PollEvents

abbrev pub cleared : Watched → PollFd
cleared w = record { fd = w.fd; events = w.events; revents = no_events }

abbrev pub shown : Side → View → Watched → PollFd
shown side view w = answer side (view w.connection) (cleared w)

abbrev pub busy : Side → View → Watched → Bool
busy side view w = is_busy side (view w.connection) (cleared w)

-- How many of the descriptors have something to tell.
unfoldable pub busy_count : Side → View → List Watched → ℕ
busy_count side view [] = 0
busy_count side view (w ∷ ws) =
    let rest = busy_count side view ws in if busy side view w then suc rest else rest

-- The entries for descriptors that stand in the array from a place on.
unfoldable pub entries_from : ℕ → List Watched → List PollEntry
entries_from index [] = []
entries_from index (w ∷ ws) =
    record { connection = w.connection; poll_pointer = index } ∷ entries_from (suc index) ws

check_entry_lem :
    (side : Side) (view : View) (before : List PollFd) (w : Watched) (rest : List PollFd)
    → check_entry side view
        (record { connection = w.connection; poll_pointer = length before })
        (before ++ (cleared w ∷ rest))
      ≡ (busy side view w, before ++ (shown side view w ∷ rest))
unfolding check_entry
check_entry_lem side view before w rest =
    let found = get_elem?-middle before (cleared w) rest in
    let checked = check_poll_events_lem side (view w.connection) w.fd w.events in
    rw (check_entry, found, checked)
      (ap (λ l. (busy side view w, l)) (set-middle before (cleared w) (shown side view w) rest))

-- A scan shows each descriptor what it should, and counts those that have something to tell.
scan_from :
    (side : Side) (view : View) (before : List PollFd) (ws : List Watched)
    → scan side view (entries_from (length before) ws) (before ++ map cleared ws)
      ≡ (busy_count side view ws, before ++ map (shown side view) ws)
unfolding scan busy_count entries_from
scan_from side view before [] = refl
scan_from side view before (w ∷ ws) =
    let one = before ++ (shown side view w ∷ []) in
    let next : scan side view (entries_from (suc (length before)) ws)
          (before ++ (shown side view w ∷ map cleared ws))
        ≡ (busy_count side view ws, before ++ (shown side view w ∷ map (shown side view) ws)) =
      let len : length one ≡ suc (length before) =
        omega (arith, length-append before (shown side view w ∷ [])) in
      ap (λ n. scan side view (entries_from n ws) (before ++ (shown side view w ∷ map cleared ws)))
        (sym len)
      ∙ ap (scan side view (entries_from (length one) ws))
          (sym (append_assoc before (shown side view w ∷ []) (map cleared ws)))
      ∙ scan_from side view one ws
      ∙ ap (λ l. (busy_count side view ws, l))
          (append_assoc before (shown side view w ∷ []) (map (shown side view) ws)) in
    rw (check_entry_lem side view before w (map cleared ws), next)

pub scan_lem :
    (side : Side) (view : View) (ws : List Watched)
    → scan side view (entries_from 0 ws) (map cleared ws)
      ≡ (busy_count side view ws, map (shown side view) ws)
scan_lem side view ws = scan_from side view [] ws

unmoved :
    (side : Side) (s : Segment) (fd : ℕ) (events : PollEvents)
    → let p : PollFd = record { fd = fd; events = events; revents = no_events } in
      is_busy side s p ≡ false → answer side s p ≡ p
unmoved side s fd events e = ground arith

-- Where nobody has anything to tell, the array stays as it was.
pub quiet_lem :
    (side : Side) (view : View) (ws : List Watched)
    → busy_count side view ws ≡ 0
    → map (shown side view) ws ≡ map cleared ws
unfolding busy_count
quiet_lem side view [] e = refl
quiet_lem side view (w ∷ ws) e = elim (Bool-cases (busy side view w)) [
  | inl t ↦ absurd (let f : suc (busy_count side view ws) ≡ 0 = rw t at e in omega (arith, f))
  | inr t ↦
      let rest : busy_count side view ws ≡ 0 = rw t at e in
      let still : shown side view w ≡ cleared w =
        unmoved side (view w.connection) w.fd w.events t in
      ap (λ x. x ∷ map (shown side view) ws) still
      ∙ ap (λ l. cleared w ∷ l) (quiet_lem side view ws rest)
]
