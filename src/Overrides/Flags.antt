-- ===== src/Overrides/Flags.antt =====
-- The non-blocking flag of a connection: `fcntl` of source/tssx/common-overrides.c with
-- `set_non_blocking` and `is_non_blocking` of the two sides.
use tssx.Base.{
  ℕ, ◌+◌, ◌-◌, ◌/◌, ◌%◌, ◌<◌, ◌≡◌, refl, ◌∙◌, inl, inr, some, true, false, Bool, ◌==◌,
  if◌then◌else◌, Bool-cases, arith,
}
use tssx.Connection.{
  Memory, Segment, Side, server, client, set_segment, put_non_blocking, server_action,
  client_action,
}
use tssx.Bridge.{Bridge, session_table_size}
use tssx.Bridge.Inv.{IsValid, connection_at, bridge_lookup_lem}
use tssx.Overrides.{
  set_non_blocking, is_non_blocking, has_nonblock, clear_nonblock, add_nonblock, Command, setfl,
  setfd, getfl, getfd, other, value, fcntl_set, fcntl_get, synced_flags, fcntl_call,
}
use tssx.Overrides.Transfer.{joined, peer_of}

-- A side sets its own flag and not its peer's.
set_non_blocking_lem :
    (side : Side) (flag : Bool) (s : Segment)
    → (is_non_blocking side (set_non_blocking side flag s) ≡ some flag)
      × (is_non_blocking (peer_of side) (set_non_blocking side flag s)
          ≡ is_non_blocking (peer_of side) s)
unfolding is_non_blocking set_non_blocking put_non_blocking server_action client_action
set_non_blocking_lem server true s = (refl, refl)
set_non_blocking_lem server false s = (refl, refl)
set_non_blocking_lem client true s = (refl, refl)
set_non_blocking_lem client false s = (refl, refl)

cleared : (now : ℕ) → has_nonblock (clear_nonblock now) ≡ false
cleared now = elim (Bool-cases (has_nonblock now)) [
  | inl t ↦
      let one : now / 2048 % 2 ≡ 1 = ground arith in
      let c : has_nonblock (now - 2048) ≡ false = ground arith in rw t c
  | inr t ↦ rw t t
]

added : (now : ℕ) → has_nonblock now ≡ false → has_nonblock (now + 2048) ≡ true
added now t = let zero : now / 2048 % 2 ≡ 0 = ground arith in ground arith

-- The bit of O_NONBLOCK is what was put there, and the other bits stay.
put_flag :
    (flag : Bool) (now : ℕ)
    → let r = if flag then add_nonblock (clear_nonblock now) else clear_nonblock now in
      (has_nonblock r ≡ flag) × (clear_nonblock r ≡ clear_nonblock now)
put_flag true now =
    let z = cleared now in let o = added (clear_nonblock now) z in (rw z o, rw (z, o) (omega arith))
put_flag false now = let z = cleared now in (z, rw z refl)

module _ (side : Side) {b : Bridge} (v : IsValid b) (fd : ℕ) (in_table : fd < session_table_size)
    (memory : Memory) (id : ℕ) (connected : connection_at b fd ≡ some (joined id)) (s : Segment)
    (lives : memory id ≡ some s) where
  abbrev flagged : ℕ → Segment
  flagged flags = set_non_blocking side (has_nonblock flags) s

  set_runs :
      (flags : ℕ)
      → (b' : Bridge) × (fcntl_set side true b memory fd flags
          ≡ some (value 0, b', set_segment id (some (flagged flags)) memory))
        × IsValid b'
        × (connection_at b' fd ≡ some (joined id))
  unfolding fcntl_set
  set_runs flags =
      let (b', session, run, _, q, v', same) = bridge_lookup_lem v fd in_table in
      let c : session.connection ≡ some (joined id) = q ∙ connected in
      (b', rw (fcntl_set, run, c, lives), v', same fd ∙ connected)

  get_runs :
      (now : ℕ) (flag : Bool)
      → is_non_blocking side s ≡ some flag
      → (b' : Bridge) × (fcntl_get side now b memory fd
          ≡ some (
            value (if flag then add_nonblock (clear_nonblock now) else clear_nonblock now),
            b',
            memory,
          ))
  unfolding fcntl_get synced_flags
  get_runs now flag agrees =
      let (b', session, run, _, q, _, _) = bridge_lookup_lem v fd in_table in
      let c : session.connection ≡ some (joined id) = q ∙ connected in
      (b', rw (fcntl_get, run, c, lives, agrees))

-- F_SETFL and F_SETFD, and F_GETFL and F_GETFD.
abbrev pub Sets : Command → Type 0
Sets setfl = Unit
Sets setfd = Unit
Sets _ = ⊥

abbrev pub Gets : Command → Type 0
Gets getfl = Unit
Gets getfd = Unit
Gets _ = ⊥

module _ (side : Side) {b : Bridge} (v : IsValid b) (fd : ℕ) (in_table : fd < session_table_size)
    (memory : Memory) (id : ℕ) (connected : connection_at b fd ≡ some (joined id)) (s : Segment)
    (lives : memory id ≡ some s) where
  set_command :
      (command : Command) (flags now : ℕ)
      → Sets command
      → fcntl_call side command true now b memory fd flags ≡ fcntl_set side true b memory fd flags
  unfolding fcntl_call
  set_command setfl flags now k = refl
  set_command setfd flags now k = refl
  set_command getfl flags now k = absurd k
  set_command getfd flags now k = absurd k
  set_command other flags now k = absurd k

  get_command :
      (command : Command) (now : ℕ) (b' : Bridge) (memory' : Memory)
      → Gets command
      → fcntl_call side command true now b' memory' fd 0 ≡ fcntl_get side now b' memory' fd
  unfolding fcntl_call
  get_command getfl now b' memory' k = refl
  get_command getfd now b' memory' k = refl
  get_command setfl now b' memory' k = absurd k
  get_command setfd now b' memory' k = absurd k
  get_command other now b' memory' k = absurd k

  -- After `fcntl` with F_SETFL or F_SETFD on a connected descriptor, where the call on the socket
  -- succeeds, the side's own writes and reads are both non-blocking exactly if the argument has the bit of
  -- O_NONBLOCK, so that they agree, and the peer's are as before; `fcntl` with F_GETFL or F_GETFD then gives the socket's
  -- flags with that bit for O_NONBLOCK.
  pub fcntl_lem :
      (setter getter : Command) (flags now : ℕ)
      → Sets setter
      → Gets getter
      → (b' : Bridge) × (memory' : Memory) × (s' : Segment) × (b'' : Bridge) × (result : ℕ)
        × (fcntl_call side setter true now b memory fd flags ≡ some (value 0, b', memory'))
        × (memory' id ≡ some s')
        × (is_non_blocking side s' ≡ some (has_nonblock flags))
        × (is_non_blocking (peer_of side) s' ≡ is_non_blocking (peer_of side) s)
        × (fcntl_call side getter true now b' memory' fd 0 ≡ some (value result, b'', memory'))
        × (has_nonblock result ≡ has_nonblock flags)
        × (clear_nonblock result ≡ clear_nonblock now)
  fcntl_lem setter getter flags now k l =
      let (b', run, v', kept) = set_runs side v fd in_table memory id connected s lives flags in
      let s' : Segment = set_non_blocking side (has_nonblock flags) s in
      let memory' : Memory = set_segment id (some s') memory in
      let e : memory' id ≡ some s' = (let t : id == id ≡ true = ground arith in rw t refl) in
      let (mine, peers) = set_non_blocking_lem side (has_nonblock flags) s in
      let (b'', got) =
        get_runs side v' fd in_table memory' id kept s' e now (has_nonblock flags) mine in
      let (bit, others) = put_flag (has_nonblock flags) now in
      (
        b',
        memory',
        s',
        b'',
        (if has_nonblock flags then add_nonblock (clear_nonblock now) else clear_nonblock now),
        set_command setter flags now k ∙ run,
        e,
        mine,
        peers,
        get_command getter now b' memory' l ∙ got,
        bit,
        others,
      )
