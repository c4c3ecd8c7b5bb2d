-- ===== src/Poll/Partition.antt =====
-- `_partition` and `_join_poll_partition` of source/tssx/poll-overrides.c undo each other.
use tssx.Base.{
  ℕ, suc, ◌<◌, ltb, ◌≡◌, refl, sym, ap, ◌∙◌, true, Option, Option-cases, none, some, List, [], ◌∷◌,
  map, ◌==◌, inl, inr, arith,
}
use tssx.Connection.{Connection}
use tssx.Bridge.{Bridge}
use tssx.Bridge.Inv.{connection_at}
use tssx.Poll.{
  PollFd, PollEvents, no_events, Partitioned, partition_entry, partition, join_poll_partition,
}

-- What the caller's array should hold: the normal descriptors show what `real_poll` said of them.
unfoldable pub merged : Bridge → (ℕ → PollEvents) → List PollFd → List PollFd
merged b told [] = []
merged b told (p ∷ fds) =
    elim (connection_at b p.fd) [ some _ ↦ p | none ↦ record p { revents = told p.fd } ]
    ∷ merged b told fds

-- `real_poll` tells the events of each descriptor.
abbrev pub tell : (ℕ → PollEvents) → PollFd → PollFd
tell told p = record p { revents = told p.fd }

join_connected :
    (b : Bridge) (p : PollFd) (fds normal_fds joined : List PollFd) (c : Connection)
    → connection_at b p.fd ≡ some c
    → join_poll_partition b fds normal_fds ≡ some joined
    → join_poll_partition b (p ∷ fds) normal_fds ≡ some (p ∷ joined)
unfolding join_poll_partition
join_connected b p fds [] joined c n e = rw (join_poll_partition, n, e)
join_connected b p fds (entry ∷ normal_fds) joined c n e = rw (join_poll_partition, n, e)

join_normal :
    (b : Bridge) (p entry : PollFd) (fds normal_fds joined : List PollFd)
    → connection_at b p.fd ≡ none
    → entry.fd ≡ p.fd
    → join_poll_partition b fds normal_fds ≡ some joined
    → join_poll_partition b (p ∷ fds) (entry ∷ normal_fds)
      ≡ some (record p { revents = entry.revents } ∷ joined)
unfolding join_poll_partition
join_normal b p entry fds normal_fds joined n same e =
    let at : entry.fd == p.fd ≡ true = ground arith in rw (join_poll_partition, n, at, e)

merged_normal :
    (b : Bridge) (told : ℕ → PollEvents) (p : PollFd) (fds : List PollFd)
    → connection_at b p.fd ≡ none
    → merged b told (p ∷ fds) ≡ record p { revents = told p.fd } ∷ merged b told fds
unfolding merged
merged_normal b told p fds n = rw (merged, n)

merged_connected :
    (b : Bridge) (told : ℕ → PollEvents) (p : PollFd) (fds : List PollFd) (c : Connection)
    → connection_at b p.fd ≡ some c
    → merged b told (p ∷ fds) ≡ p ∷ merged b told fds
unfolding merged
merged_connected b told p fds c n = rw (merged, n)

-- `_partition` asserts that each descriptor is above 0.
abbrev pub Above : List PollFd → Type 0
Above [] = Unit
Above (p ∷ fds) = (0 < p.fd) × Above fds

-- What is joined behind a partition, and what it should come to.
abbrev joins : Bridge → (ℕ → PollEvents) → (PollFd → PollFd) → Partitioned → Option (List PollFd)
joins b told scanned parts =
    join_poll_partition b (map scanned parts.fds) (map (tell told) parts.normal_fds)

abbrev should : Bridge → (ℕ → PollEvents) → (PollFd → PollFd) → Partitioned → Option (List PollFd)
should b told scanned parts = some (merged b told (map scanned parts.fds))

entry-join :
    (b : Bridge) (told : ℕ → PollEvents) (scanned : PollFd → PollFd)
    → ((p : PollFd) → (scanned p).fd ≡ p.fd)
    → (index : ℕ) (p : PollFd) (parts : Partitioned)
    → joins b told scanned parts ≡ should b told scanned parts
    → joins b told scanned (partition_entry b index p parts)
      ≡ should b told scanned (partition_entry b index p parts)
unfolding partition_entry
entry-join b told scanned same index p parts rest =
    let plain : PollFd = record p { revents = no_events } in
    let q : PollFd = scanned plain in
    let e : q.fd ≡ p.fd = same plain in
    elim (Option-cases (connection_at b p.fd)) [
      | inl n ↦
          let n' : connection_at b q.fd ≡ none = ap (λ i. connection_at b i) e ∙ n in
          let here : partition_entry b index p parts ≡ record {
            fds = plain ∷ parts.fds;
            tssx_fds = parts.tssx_fds;
            normal_fds = plain ∷ parts.normal_fds;
          } =
            rw (partition_entry, n) in
          ap (joins b told scanned) here
          ∙ join_normal b q (tell told plain) (map scanned parts.fds)
              (map (tell told) parts.normal_fds) _ n' (sym e) rest
          ∙ ap (λ i. some (record q { revents = told i } ∷ merged b told (map scanned parts.fds)))
              (sym e)
          ∙ ap some (sym (merged_normal b told q (map scanned parts.fds) n'))
          ∙ sym (ap (should b told scanned) here)
      | inr (c, n) ↦
          let n' : connection_at b q.fd ≡ some c = ap (λ i. connection_at b i) e ∙ n in
          let here : partition_entry b index p parts ≡ record {
            fds = plain ∷ parts.fds;
            tssx_fds = record { connection = c; poll_pointer = index } ∷ parts.tssx_fds;
            normal_fds = parts.normal_fds;
          } =
            rw (partition_entry, n) in
          ap (joins b told scanned) here
          ∙ join_connected b q (map scanned parts.fds) (map (tell told) parts.normal_fds) _ c n'
              rest
          ∙ ap some (sym (merged_connected b told q (map scanned parts.fds) c n'))
          ∙ sym (ap (should b told scanned) here)
    ]

-- For descriptors above 0, after a partition, a scan that may change what the array's descriptors show,
-- and a `real_poll` of the normal descriptors, the join succeeds: it leaves each connected descriptor of
-- the array as the scan left it, and gives each normal one the events that `real_poll` told.
pub partition-join :
    (b : Bridge) (told : ℕ → PollEvents) (scanned : PollFd → PollFd)
    → ((p : PollFd) → (scanned p).fd ≡ p.fd)
    → (index : ℕ) (fds : List PollFd) → Above fds
    → (parts : Partitioned) × (partition b index fds ≡ some parts)
      × (join_poll_partition b (map scanned parts.fds) (map (tell told) parts.normal_fds)
          ≡ some (merged b told (map scanned parts.fds)))
unfolding partition join_poll_partition merged
partition-join b told scanned same index [] above =
    (record { fds = []; tssx_fds = []; normal_fds = [] }, refl, refl)
partition-join b told scanned same index (p ∷ fds) (pos, above) =
    let (parts, run, rest) = partition-join b told scanned same (suc index) fds above in
    let t : ltb 0 p.fd ≡ true = ground arith in
    (
      partition_entry b index p parts,
      rw (partition, t, run) refl,
      entry-join b told scanned same index p parts rest,
    )
