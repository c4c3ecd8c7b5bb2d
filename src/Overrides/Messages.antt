-- ===== src/Overrides/Messages.antt =====
-- The calls of source/tssx/socket-overrides.c that come down to `read` and `write`: `sendto`,
-- `recvfrom`, `sendmsg` and `recvmsg`. An address is a number, none a null pointer.
use tssx.Base.{ℕ, ◌≡◌, Option, none, some, true, List, [], ◌∷◌, ◌==◌, ◌||◌, ◌⊎◌, inl, inr, arith}
use tssx.Buffer.{Round}
use tssx.Connection.{Memory, Side}
use tssx.Bridge.{Bridge}
use tssx.Overrides.{Sent, Received, write_call, read_call, send_call, recv_call}

-- `struct msghdr`: the buffers, with the bytes and the length of each, and the address.
pub record Message : Type 0 where
  pub buffers : List (List ℕ × ℕ)
  pub name : Option ℕ

-- The calls of the next library.
pub record Library : Type 0 where
  pub real_write : ℕ → List ℕ → ℕ → ℕ
  pub real_read : ℕ → ℕ → ℕ × List ℕ
  pub real_send : ℕ → List ℕ → ℕ → ℕ → ℕ
  pub real_recv : ℕ → ℕ → ℕ → ℕ × List ℕ
  pub real_sendto : ℕ → List ℕ → ℕ → ℕ → ℕ → ℕ
  pub real_recvfrom : ℕ → ℕ → ℕ → ℕ → ℕ × List ℕ
  pub real_sendmsg : ℕ → Message → ℕ → ℕ
  pub real_recvmsg : ℕ → Message → ℕ → ℕ × List ℕ

module _ (real : Library) (side : Side) (b : Bridge) (memory : Memory) (fd : ℕ) (flags start : ℕ)
    (rounds : List Round) where
  abbrev sent : ℕ → Option Sent
  sent result = some (record { result = result; bridge = b; memory = memory })

  abbrev received : ℕ × List ℕ → Option Received
  received (result, copied) =
      some (record { result = result; copied = copied; bridge = b; memory = memory })

  abbrev send : List ℕ → ℕ → Option Sent
  send source size =
      send_call real.real_write real.real_read real.real_send side b memory fd source size flags
        start rounds

  abbrev recv : ℕ → Option Received
  recv size =
      recv_call real.real_write real.real_read real.real_recv side b memory fd size flags start
        rounds

  unfoldable pub sendto_call : List ℕ → ℕ → Option ℕ → Option Sent
  sendto_call source size none = send source size
  sendto_call source size (some address) = sent (real.real_sendto fd source size flags address)

  unfoldable pub recvfrom_call : ℕ → Option ℕ → Option Received
  recvfrom_call size none = recv size
  recvfrom_call size (some address) = received (real.real_recvfrom fd size flags address)

  unfoldable pub sendmsg_call : Message → Option Sent
  sendmsg_call message = elim message.buffers [
    | (source, size) ∷ [] ↦ sendto_call source size message.name
    | _ ↦ sent (real.real_sendmsg fd message flags)
  ]

  unfoldable pub recvmsg_call : Message → Option Received
  recvmsg_call message = elim message.buffers [
    | (_, size) ∷ [] ↦ recvfrom_call size message.name
    | _ ↦ received (real.real_recvmsg fd message flags)
  ]

  plain_flags : (flags ≡ 0) ⊎ (flags ≡ 16384) → ((flags == 0) || (flags == 16384)) ≡ true
  plain_flags (inl e) = ground (arith, e)
  plain_flags (inr e) = ground (arith, e)

  plain_send :
      (flags ≡ 0) ⊎ (flags ≡ 16384)
      → (source : List ℕ) (size : ℕ)
      → send source size
        ≡ write_call real.real_write real.real_read side b memory fd source size start rounds
  unfolding send_call
  plain_send plain source size = rw (send_call, plain_flags plain)

  plain_recv :
      (flags ≡ 0) ⊎ (flags ≡ 16384)
      → (size : ℕ)
      → recv size ≡ read_call real.real_write real.real_read side b memory fd size start rounds
  unfolding recv_call
  plain_recv plain size = rw (recv_call, plain_flags plain)

  -- With no flags or MSG_NOSIGNAL alone, without an address and with one buffer, `send`, `sendto` and
  -- `sendmsg` are `write`, and `recv`, `recvfrom` and `recvmsg` are `read`.
  messages_lem :
      (flags ≡ 0) ⊎ (flags ≡ 16384)
      → (source : List ℕ) (size : ℕ)
      → let written =
          write_call real.real_write real.real_read side b memory fd source size start rounds in
        let got = read_call real.real_write real.real_read side b memory fd size start rounds in
        let message : Message = record { buffers = (source, size) ∷ []; name = none } in
        (send_call real.real_write real.real_read real.real_send side b memory fd source size flags
            start rounds
          ≡ written)
        × (sendto_call source size none ≡ written)
        × (sendmsg_call message ≡ written)
        × (recv_call real.real_write real.real_read real.real_recv side b memory fd size flags start
              rounds
            ≡ got)
        × (recvfrom_call size none ≡ got)
        × (recvmsg_call message ≡ got)
  unfolding sendto_call recvfrom_call sendmsg_call recvmsg_call
  messages_lem plain source size =
      let s = plain_send plain source size in let r = plain_recv plain size in (s, s, s, r, r, r)
