-- ===== src/Overrides/Transfer.antt =====
-- What one process writes to a connection, the other reads: the calls of
-- source/tssx/common-overrides.c over the buffers.
use tssx.Base.{
  ℕ, ◌-◌, ◌≤◌, ◌<◌, ◌≡◌, ◌≢◌, refl, sym, ap, ◌∙◌, subst, inr, Option, none, some, true, false, List,
  [], ◌++◌, length, take, drop, min, ◌==◌, arith, take_append, drop_append, take-min, drop-min,
  length-take,
}
use tssx.Buffer.{Buffer, read, write, Round, buffer_write, buffer_read}
use tssx.Buffer.Inv.{IsValid, contents, length-contents}
use tssx.Buffer.Put.{Wrote, write_available_lem}
use tssx.Buffer.Take.{read_available_lem}
use tssx.Buffer.Calls.{determine_now}
use tssx.Connection.{
  Connection, Memory, Segment, Side, server, client, set_segment, change, connection_peer_died,
}
use tssx.Bridge.{Bridge, session_table_size}
use tssx.Bridge.Inv.{connection_at, bridge_lookup_lem}
use tssx.Bridge.Inv
use tssx.Overrides.{
  Sent, Received, get_buffer, put_buffer, write_to, read_from, connection_write, connection_read,
  read_call, write_call, server_buffer_number, client_buffer_number,
}

module _ (start : ℕ) (rounds : List Round) {b : Buffer} (v : IsValid b) (n : ℕ) (pos : 0 < n) where
  -- A write to a buffer with space returns at once.
  write_fits :
      (source : List ℕ)
      → n ≤ length source
      → 0 < b.capacity - b.size
      → let k = min (b.capacity - b.size) n in
        (b' : Buffer) × (buffer_write (some b) (some source) n start rounds ≡ some (k, some b'))
        × Wrote b (take k source) b'
  unfolding buffer_write
  write_fits source h room =
      let k = min (b.capacity - b.size) n in
      let (b', put, wrote) =
        write_available_lem b source k v (omega arith) (omega (arith, v.size_in)) in
      let more : n == 0 ≡ false = ground arith in
      (b', rw (more, determine_now write start rounds v (inr room), put), wrote)

  -- A read from a buffer that holds bytes returns at once.
  read_held :
      0 < b.size
      → (b' : Buffer) × (buffer_read (some b) true n start rounds
          ≡ some (min b.size n, take n (contents b), some b'))
        × IsValid b'
        × (contents b' ≡ drop n (contents b))
  unfolding buffer_read
  read_held held =
      let k = min b.size n in
      let (copied, b', got, t) = read_available_lem b k v (omega arith) in
      let more : n == 0 ≡ false = ground arith in
      let some_byte : k == 0 ≡ false = ground arith in
      let e : k ≡ min (length (contents b)) n = ap (λ m. min m n) (sym (length-contents v)) in
      let first : copied ≡ take n (contents b) =
        sym (take_append copied (contents b'))
        ∙ ap (take (length copied)) (sym t.bytes)
        ∙ ap (λ m. take m (contents b)) (t.count ∙ e)
        ∙ take-min n (contents b) in
      let rest : contents b' ≡ drop n (contents b) =
        sym (drop_append copied (contents b'))
        ∙ ap (drop (length copied)) (sym t.bytes)
        ∙ ap (λ m. drop m (contents b)) (t.count ∙ e)
        ∙ drop-min n (contents b) in
      (
        b',
        rw (more, determine_now read start rounds v (inr held), got, some_byte)
            (ap (λ c. some (k, c, some b')) first),
        t.valid,
        rest,
      )

-- The buffer that a side writes, and the side that reads it.
abbrev pub carried : Side → Segment → Buffer
carried server s = s.server_buffer
carried client s = s.client_buffer

abbrev pub peer_of : Side → Side
peer_of server = client
peer_of client = server

abbrev number_of : Side → ℕ
number_of server = server_buffer_number
number_of client = client_buffer_number

abbrev pub joined : ℕ → Connection
joined id = record { segment_id = some id }

module _ (real_write : ℕ → List ℕ → ℕ → ℕ) (real_read : ℕ → ℕ → ℕ × List ℕ) where
  abbrev writes : Side → Bridge → Memory → ℕ → List ℕ → ℕ → ℕ → List Round → Option Sent
  writes = write_call real_write real_read

  abbrev reads : Side → Bridge → Memory → ℕ → ℕ → ℕ → List Round → Option Received
  reads = read_call real_write real_read

  module _ (side : Side) {b : Bridge} (v : Inv.IsValid b) (fd : ℕ)
      (in_table : fd < session_table_size) (memory : Memory) where
    write_number :
        (source : List ℕ) (n start : ℕ) (rounds : List Round) (to : Side)
        → writes to b memory fd source n start rounds
          ≡ connection_write real_write real_read b memory fd source n (number_of to) start rounds
    unfolding write_call
    write_number source n start rounds server = refl
    write_number source n start rounds client = refl

    read_number :
        (n start : ℕ) (rounds : List Round) (to : Side)
        → reads (peer_of to) b memory fd n start rounds
          ≡ connection_read real_write real_read b memory fd n (number_of to) start rounds
    unfolding read_call
    read_number n start rounds server = refl
    read_number n start rounds client = refl

    -- A descriptor without a connection goes to the socket, on either side.
    unconnected_lem :
        (source : List ℕ) (n start : ℕ) (rounds : List Round)
        → connection_at b fd ≡ none
        → (b' : Bridge) × (write_call real_write real_read side b memory fd source n start rounds
            ≡ some (record { result = real_write fd source n; bridge = b'; memory = memory }))
          × (read_call real_write real_read (peer_of side) b memory fd n start rounds
              ≡ some (record {
                result = (real_read fd n).0;
                copied = (real_read fd n).1;
                bridge = b';
                memory = memory;
              }))
    unfolding connection_write connection_read
    unconnected_lem source n start rounds free =
        let (b', session, run, _, q, _, _) = bridge_lookup_lem v fd in_table in
        let none_there : session.connection ≡ none = q ∙ free in
        (
          b',
          write_number source n start rounds side ∙ rw (connection_write, run, none_there),
          read_number n start rounds side ∙ rw (connection_read, run, none_there),
        )

    module _ (id : ℕ) (connected : connection_at b fd ≡ some (joined id)) (s : Segment)
        (lives : memory id ≡ some s) where
      count_seen : connection_peer_died (joined id) memory ≡ (s.open_count == 1)
      unfolding connection_peer_died
      count_seen = rw lives

      -- Where this process is the connection's only user, nothing is written or read.
      peer_died_lem :
          (source : List ℕ) (n start : ℕ) (rounds : List Round)
          → s.open_count ≡ 1
          → (b' : Bridge) × (writes side b memory fd source n start rounds
              ≡ some (record { result = 0; bridge = b'; memory = memory }))
            × (reads (peer_of side) b memory fd n start rounds
                ≡ some (record { result = 0; copied = []; bridge = b'; memory = memory }))
      unfolding connection_write connection_read
      peer_died_lem source n start rounds one =
          let (b', session, run, _, q, _, _) = bridge_lookup_lem v fd in_table in
          let c : session.connection ≡ some (joined id) = q ∙ connected in
          let e : connection_peer_died (joined id) memory ≡ true = count_seen ∙ ground arith in
          (
            b',
            write_number source n start rounds side ∙ rw (connection_write, run, c, e),
            read_number n start rounds side ∙ rw (connection_read, run, c, e),
          )

      -- With a peer the call goes to the buffer of the connection.
      routed :
          (source : List ℕ) (n start : ℕ) (rounds : List Round)
          → s.open_count ≢ 1
          → (b' : Bridge) × (writes side b memory fd source n start rounds
              ≡ write_to (joined id) b' memory source n (number_of side) start rounds)
            × (reads (peer_of side) b memory fd n start rounds
                ≡ read_from (joined id) b' memory n (number_of side) start rounds)
      unfolding connection_write connection_read
      routed source n start rounds more =
          let (b', session, run, _, q, _, _) = bridge_lookup_lem v fd in_table in
          let c : session.connection ≡ some (joined id) = q ∙ connected in
          let e : connection_peer_died (joined id) memory ≡ false = count_seen ∙ ground arith in
          (
            b',
            write_number source n start rounds side ∙ rw (connection_write, run, c, e),
            read_number n start rounds side ∙ rw (connection_read, run, c, e),
          )

get_buffer_lem : (side : Side) (s : Segment) → get_buffer s (number_of side) ≡ carried side s
unfolding get_buffer
get_buffer_lem server s = refl
get_buffer_lem client s = refl

put_buffer_lem :
    (side : Side) (s : Segment) (b : Buffer)
    → (carried side (put_buffer (number_of side) (some b) s) ≡ b)
      × ((put_buffer (number_of side) (some b) s).open_count ≡ s.open_count)
unfolding put_buffer
put_buffer_lem server s b = (refl, refl)
put_buffer_lem client s b = (refl, refl)

module _ (side : Side) (id : ℕ) (memory : Memory) (s : Segment) (lives : memory id ≡ some s)
    (valid : IsValid (carried side s)) (n : ℕ) (pos : 0 < n) (start : ℕ) (rounds : List Round)
    (b : Bridge) where
  changing :
      (f : Segment → Option Segment) → change (joined id) f memory ≡ set_segment id (f s) memory
  changing f = rw (change, lives) refl

  changed : (o : Option Segment) → set_segment id o memory id ≡ o
  changed o = let e : id == id ≡ true = ground arith in rw e

  -- A write to the buffer, when it has space.
  written :
      (source : List ℕ)
      → n ≤ length source
      → let held = carried side s in
        0 < held.capacity - held.size
        → let k = min (held.capacity - held.size) n in
          (s' : Segment) × (sent : Sent) × (write_to
              (joined id)
              b
              memory
              source
              n
              (number_of side)
              start
              rounds
            ≡ some sent)
          × (sent.result ≡ k)
          × (sent.memory id ≡ some s')
          × (s'.open_count ≡ s.open_count)
          × Wrote held (take k source) (carried side s')
  unfolding write_to
  written source h room =
      let (b', run, wrote) = write_fits start rounds valid n pos source h room in
      let (there, same) = put_buffer_lem side s b' in
      (
        put_buffer (number_of side) (some b') s,
        record {
          result = min ((carried side s).capacity - (carried side s).size) n;
          bridge = b;
          memory = set_segment id (some (put_buffer (number_of side) (some b') s)) memory;
        },
        rw (
          write_to,
          lives,
          get_buffer_lem side s,
          run,
          changing (λ s. some (put_buffer (number_of side) (some b') s)),
        ),
        refl,
        changed (some (put_buffer (number_of side) (some b') s)),
        same,
        subst (Wrote (carried side s) _) (sym there) wrote,
      )

  -- A read from the buffer, when it holds bytes.
  delivered :
      0 < (carried side s).size
      → let held = contents (carried side s) in
        (received : Received) × (read_from (joined id) b memory n (number_of side) start rounds
          ≡ some received)
        × (received.result ≡ length (take n held))
        × (received.copied ≡ take n held)
  unfolding read_from
  delivered held =
      let (b', run, _, _) = read_held start rounds valid n pos held in
      (
        record {
          result = min (carried side s).size n;
          copied = take n (contents (carried side s));
          bridge = b;
          memory = set_segment id (some (put_buffer (number_of side) (some b') s)) memory;
        },
        rw (
          read_from,
          lives,
          get_buffer_lem side s,
          run,
          changing (λ s. some (put_buffer (number_of side) (some b') s)),
        ),
        omega (arith, length-take n (contents (carried side s)), length-contents valid),
        refl,
      )

module _ (real_write : ℕ → List ℕ → ℕ → ℕ) (real_read : ℕ → ℕ → ℕ × List ℕ) (side : Side)
    {ours : Bridge} (v : Inv.IsValid ours) (fd : ℕ) (in_table : fd < session_table_size)
    {theirs : Bridge} (w : Inv.IsValid theirs) (peer_fd : ℕ)
    (peer_in_table : peer_fd < session_table_size) (id : ℕ)
    (connected : connection_at ours fd ≡ some (joined id))
    (peer_connected : connection_at theirs peer_fd ≡ some (joined id)) (memory : Memory)
    (s : Segment) (lives : memory id ≡ some s) (more : s.open_count ≢ 1)
    (valid : IsValid (carried side s)) where
  -- A `write` of one process and a `read` of its peer, by descriptors that are connected by the same
  -- segment: where the buffer has space, the write returns at once with the number of bytes that fit,
  -- and the peer's read returns at once with the oldest of the bytes held before and the bytes
  -- written, in order.
  pub write-read :
      (source : List ℕ) (n : ℕ)
      → 0 < n
      → n ≤ length source
      → 0 < (carried side s).capacity - (carried side s).size
      → (m : ℕ) → 0 < m
      → (start peer_start : ℕ) (rounds peer_rounds : List Round)
      → let k = min ((carried side s).capacity - (carried side s).size) n in
        let bytes = take m (contents (carried side s) ++ take k source) in
        (sent : Sent) × (received : Received) × (write_call real_write real_read side ours memory fd
            source n start rounds
          ≡ some sent)
        × (sent.result ≡ k)
        × (read_call real_write real_read
              (peer_of side)
              theirs
              sent.memory
              peer_fd
              m
              peer_start
              peer_rounds
            ≡ some received)
        × (received.copied ≡ bytes)
        × (received.result ≡ length bytes)
  write-read source n pos h room m mpos start peer_start rounds peer_rounds =
      let (b', to_buffer, _) =
        routed real_write real_read side v fd in_table memory id connected s lives source n start
          rounds more in
      let (s', sent, run, result, lives', same, wrote) =
        written side id memory s lives valid n pos start rounds b' source h room in
      let (c', _, from_buffer) =
        routed real_write real_read side w peer_fd peer_in_table sent.memory id peer_connected s'
          lives' source m peer_start peer_rounds (λ e. more (sym same ∙ e)) in
      let k = min ((carried side s).capacity - (carried side s).size) n in
      let some_held : 0 < (carried side s').size =
        omega (arith, wrote.size, length-take k source) in
      let (received, got, length_got, copied) =
        delivered side id sent.memory s' lives' wrote.valid m mpos peer_start peer_rounds c'
          some_held in
      (
        sent,
        received,
        to_buffer ∙ run,
        result,
        from_buffer ∙ got,
        copied ∙ ap (take m) wrote.bytes,
        length_got ∙ ap (λ l. length (take m l)) wrote.bytes,
      )
