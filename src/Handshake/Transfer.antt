-- ===== src/Handshake/Transfer.antt =====
-- A handshake of source/tssx/server-overrides.c and source/tssx/client-overrides.c, and the first write
-- behind it.
use tssx.Base.{
  ℕ, ◌-◌, ◌≤◌, ◌<◌, ◌≡◌, refl, sym, ap, ◌∙◌, subst, inl, inr, none, some, List, [], ◌++◌, length,
  take, min, int_limit, arith,
}
use tssx.Buffer.{Round}
use tssx.Buffer.Inv.{IsValid, contents, length-contents}
use tssx.Connection.{ConnectionOptions, Memory, Segment, Side, server, client}
use tssx.Connection.Lifecycle.{start_segment}
use tssx.Bridge.{Bridge, session_table_size}
use tssx.Bridge.Inv
use tssx.Bridge.Inv.{connection_at}
use tssx.Overrides.{Sent, Received, write_call, read_call}
use tssx.Overrides.Transfer.{carried, peer_of, write-read}
use tssx.Handshake.{accepted, connected, server_failed, client_failed, Handshake}
use tssx.Handshake.Steps.{Reach}
use tssx.Handshake.Joined.{at_start, At, Has}
use tssx.Handshake.Run.{Reach-Fine}

abbrev pub bridge_of : Side → Handshake → Bridge
bridge_of server h = h.server_bridge
bridge_of client h = h.client_bridge

abbrev pub fd_of : Side → ℕ → ℕ → ℕ
fd_of server server_fd client_fd = server_fd
fd_of client server_fd client_fd = client_fd

-- A write to an empty buffer, and the read of the peer.
module _ (real_write : ℕ → List ℕ → ℕ → ℕ) (real_read : ℕ → ℕ → ℕ × List ℕ) (source : List ℕ)
    (n m start peer_start : ℕ) (rounds peer_rounds : List Round) where
  abbrev pub Transferred : Side → Bridge → ℕ → Bridge → ℕ → Memory → Type 0
  Transferred side b fd peer peer_fd memory =
      (sent : Sent) × (received : Received) × (write_call real_write real_read side b memory fd
          source n start rounds
        ≡ some sent)
      × (0 < sent.result)
      × (sent.result ≤ n)
      × (read_call real_write real_read (peer_of side) peer sent.memory peer_fd m peer_start
            peer_rounds
          ≡ some received)
      × (received.copied ≡ take m (take sent.result source))
      × (received.result ≡ length received.copied)

  to_empty :
      0 < n
      → n ≤ length source
      → 0 < m
      → (side : Side) (id : ℕ) (b peer : Bridge) (fd peer_fd : ℕ) (memory : Memory) (s : Segment)
      → fd < session_table_size
      → peer_fd < session_table_size
      → Has id fd b
      → Has id peer_fd peer
      → memory id ≡ some s
      → s.open_count ≡ 2
      → IsValid (carried side s)
      → contents (carried side s) ≡ []
      → Transferred side b fd peer peer_fd memory
  to_empty pos enough mpos side id b peer fd peer_fd memory s l l' (v, c) (w, d) lives two valid
        empty =
      let none_held : (carried side s).size ≡ 0 =
        omega (arith, length-contents valid, ap (λ xs. length xs) empty) in
      let (sent, received, run, result, run', copied, result') =
        write-read real_write real_read side v fd l w peer_fd l' id c d memory s lives
          (λ e. absurd (omega (arith, e, two))) valid source n pos enough
          (omega (arith, none_held, valid.positive)) m mpos start peer_start rounds peer_rounds in
      let bytes : take m (
            contents (carried side s)
            ++ take (min ((carried side s).capacity - (carried side s).size) n) source)
          ≡ take m (take sent.result source) =
        ap
          (λ xs.
            take m (xs ++ take (min ((carried side s).capacity - (carried side s).size) n) source))
          empty
        ∙ ap (λ k. take m (take k source)) (sym result) in
      (
        sent,
        received,
        run,
        omega (arith, result, none_held, valid.positive),
        omega (arith, result),
        run',
        copied ∙ bytes,
        result' ∙ ap (λ xs. length xs) (sym copied),
      )

module _ (options : ConnectionOptions) (id : ℕ) (server_memory client_memory : List ℕ)
    (server_fd client_fd : ℕ) (memory : Memory) {ours theirs : Bridge}
    (server_size : options.server_buffer_size ≡ length server_memory)
    (client_size : options.client_buffer_size ≡ length client_memory)
    (server_pos : 0 < length server_memory) (client_pos : 0 < length client_memory)
    (server_small : length server_memory < int_limit)
    (client_small : length client_memory < int_limit) (v : Inv.IsValid ours)
    (w : Inv.IsValid theirs) (in_table : server_fd < session_table_size)
    (peer_in_table : client_fd < session_table_size) (free : connection_at ours server_fd ≡ none)
    (peer_free : connection_at theirs client_fd ≡ none) {h : Handshake}
    (run : Reach options id server_memory client_memory server_fd client_fd
      (at_start memory ours theirs)
      h)
    (on_server : h.server ≡ accepted) (on_client : h.client ≡ connected) where
  -- In whatever order the two processes take their steps, and whichever of them could have failed: when
  -- the server has accepted and the client is connected, both bridges are valid and have the descriptor
  -- connected by the segment that the server made, which has two users and two valid, empty buffers.
  pub accept-connect :
      (s : Segment) × (h.memory id ≡ some s)
      × (s.open_count ≡ 2)
      × Has id server_fd h.server_bridge
      × Has id client_fd h.client_bridge
      × IsValid s.server_buffer
      × IsValid s.client_buffer
      × (contents s.server_buffer ≡ [])
      × (contents s.client_buffer ≡ [])
  accept-connect =
      let (s, made, one, valid, valid', empty, empty') =
        start_segment options id server_memory client_memory memory server_size client_size
          server_pos client_pos server_small client_small in
      let fine =
        Reach-Fine options id server_memory client_memory server_fd client_fd s ours theirs made one
          v w in_table peer_in_table free peer_free run (inr (inr (refl, refl, refl, refl))) in
      elim fine [
        | inl f ↦ let q : server_failed ≡ accepted = sym f ∙ on_server in absurd cc
        | inr (inl f) ↦ let q : client_failed ≡ connected = sym f ∙ on_client in absurd cc
        | inr (inr at) ↦
            let (alive, ours', theirs') : At id server_fd client_fd s ours theirs accepted connected
                h.memory h.to_client h.to_server h.server_bridge h.client_bridge =
              subst
                (λ p.
                  At id server_fd client_fd s ours theirs accepted p h.memory h.to_client
                    h.to_server h.server_bridge h.client_bridge)
                on_client
                (subst
                  (λ p.
                    At id server_fd client_fd s ours theirs p h.client h.memory h.to_client
                      h.to_server h.server_bridge h.client_bridge)
                  on_server at) in
            (record s { open_count = 2 }, alive, refl, ours', theirs', valid, valid', empty, empty')
      ]

  -- The first write behind a handshake, of either side, returns at once with a positive number of bytes,
  -- at most those asked for, and a read of the other side returns at once with these bytes, as many as
  -- it asks for.
  pub first_write :
      (real_write : ℕ → List ℕ → ℕ → ℕ) (real_read : ℕ → ℕ → ℕ × List ℕ) (side : Side)
      (source : List ℕ) (n m start peer_start : ℕ) (rounds peer_rounds : List Round)
      → 0 < n
      → n ≤ length source
      → 0 < m
      → Transferred real_write real_read source n m start peer_start rounds peer_rounds side
          (bridge_of side h)
          (fd_of side server_fd client_fd)
          (bridge_of (peer_of side) h)
          (fd_of (peer_of side) server_fd client_fd)
          h.memory
  first_write real_write real_read server source n m start peer_start rounds peer_rounds pos enough
        mpos =
      let (s, lives, two, ours', theirs', valid, _, empty, _) = accept-connect in
      to_empty real_write real_read source n m start peer_start rounds peer_rounds pos enough mpos
        server id h.server_bridge h.client_bridge server_fd client_fd h.memory s in_table
        peer_in_table ours' theirs' lives two valid empty
  first_write real_write real_read client source n m start peer_start rounds peer_rounds pos enough
        mpos =
      let (s, lives, two, ours', theirs', _, valid, _, empty) = accept-connect in
      to_empty real_write real_read source n m start peer_start rounds peer_rounds pos enough mpos
        client id h.client_bridge h.server_bridge client_fd server_fd h.memory s peer_in_table
        in_table theirs' ours' lives two valid empty
