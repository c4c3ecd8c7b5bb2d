-- ===== src/Poll/Wait.antt =====
-- When a `poll` of connected descriptors returns, and with what: `poll` and `_simple_tssx_poll` of
-- source/tssx/poll-overrides.c.
use tssx.Base.{
  ℕ, suc, ◌<◌, ◌≡◌, refl, ap, ◌∙◌, true, false, Option, none, some, List, [], ◌∷◌, ◌++◌, map,
  length, ltb, ◌⊎◌, inl, inr, arith,
}
use tssx.Connection.{Side}
use tssx.Bridge.{Bridge}
use tssx.Bridge.Inv.{connection_at}
use tssx.Poll.{
  PollFd, Look, poll_timeout_elapsed, simple_tssx_poll, Partitioned, partition, partition_entry,
  poll_parts, poll,
}
use tssx.Poll.Scan.{Watched, cleared, shown, busy_count, entries_from, scan_lem, quiet_lem}

-- The descriptors of the array are above 0 and connected, and `ws` says how.
abbrev pub Matches : Bridge → List PollFd → List Watched → Type 0
Matches b [] [] = Unit
Matches b (p ∷ fds) (w ∷ ws) =
    (0 < p.fd)
    × (connection_at b p.fd ≡ some w.connection)
    × (p.fd ≡ w.fd)
    × (p.events ≡ w.events)
    × Matches b fds ws
Matches b _ _ = ⊥

partition_all :
    (b : Bridge) (index : ℕ) (fds : List PollFd) (ws : List Watched)
    → Matches b fds ws
    → partition b index fds
      ≡ some (record { fds = map cleared ws; tssx_fds = entries_from index ws; normal_fds = [] })
unfolding partition partition_entry entries_from
partition_all b index [] [] m = refl
partition_all b index [] (w ∷ ws) m = absurd m
partition_all b index (p ∷ fds) [] m = absurd m
partition_all b index (p ∷ fds) (w ∷ ws) (pos, c, e, f, m) =
    let above : ltb 0 p.fd ≡ true = ground arith in
    rw (partition, above, partition_all b (suc index) fds ws m) (rw (partition_entry, c, e, f) refl)

module _ (side : Side) (ws : List Watched) (start timeout : ℕ) where
  -- Rounds in which nobody has anything to tell and the time is not up.
  abbrev pub Quiet : List Look → Type 0
  Quiet [] = Unit
  Quiet (look ∷ looks) =
      (busy_count side look.view ws ≡ 0)
      × (poll_timeout_elapsed start look.now timeout ≡ false)
      × Quiet looks

  simple_tssx_poll_lem :
      (quiet : List Look) (look : Look) (rest : List Look)
      → Quiet quiet
      → (0 < busy_count side look.view ws) ⊎ (poll_timeout_elapsed start look.now timeout ≡ true)
      → simple_tssx_poll side
          (entries_from 0 ws)
          start
          timeout
          (quiet ++ (look ∷ rest))
          (map cleared ws)
        ≡ some (busy_count side look.view ws, map (shown side look.view) ws)
  unfolding simple_tssx_poll
  simple_tssx_poll_lem [] look rest q (inl pos) =
      let t : ltb 0 (busy_count side look.view ws) ≡ true = ground arith in
      rw (scan_lem side look.view ws, t)
  simple_tssx_poll_lem [] look rest q (inr up) = rw (scan_lem side look.view ws, up) (ground arith)
  simple_tssx_poll_lem (l ∷ quiet) look rest (none_busy, more_time, q) ends =
      let still = quiet_lem side l.view ws none_busy in
      let next = simple_tssx_poll_lem quiet look rest q ends in
      rw (scan_lem side l.view ws, none_busy, more_time, still, next)

-- A `poll` of connected descriptors above 0 returns in the first round in which one of them has something to
-- tell or the time is up; it returns how many have, and shows each descriptor exactly that it is ready
-- for what it waits for, or that its peer is gone.
pub poll_lem :
    (real_poll : List PollFd → ℕ → ℕ × List PollFd)
    (concurrent : Partitioned → ℕ → Option (ℕ × List PollFd × List PollFd)) (side : Side)
    (b : Bridge) (start timeout : ℕ) (fds : List PollFd) (ws : List Watched) (quiet : List Look)
    (look : Look) (rest : List Look)
    → Matches b fds ws
    → 0 < length ws
    → Quiet side ws start timeout quiet
    → (0 < busy_count side look.view ws) ⊎ (poll_timeout_elapsed start look.now timeout ≡ true)
    → poll real_poll concurrent side b start (quiet ++ (look ∷ rest)) fds timeout
      ≡ some (busy_count side look.view ws, map (shown side look.view) ws)
unfolding poll poll_parts entries_from
poll_lem real_poll concurrent side b start timeout fds [] quiet look rest m pos q ends =
    absurd (omega (arith, pos))
poll_lem real_poll concurrent side b start timeout [] (w ∷ ws) quiet look rest m pos q ends =
    absurd m
poll_lem real_poll concurrent side b start timeout (p ∷ fds) (w ∷ ws) quiet look rest m pos q ends =
    ap
      (λ o. elim o [
        | none ↦ none
        | some parts ↦
            poll_parts real_poll concurrent side b start (quiet ++ (look ∷ rest)) timeout parts
      ])
      (partition_all b 0 (p ∷ fds) (w ∷ ws) m)
    ∙ simple_tssx_poll_lem side (w ∷ ws) start timeout quiet look rest q ends
