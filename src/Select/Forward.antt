-- ===== src/Select/Forward.antt =====
-- The way of a mixed `select` through `poll`, and of a `select` on several connected descriptors:
-- source/tssx/select-overrides.c.
use tssx.Base.{
  ℕ, zero, suc, ◌+◌, ◌≡◌, ◌≢◌, refl, sym, ap, ◌∙◌, fun_ext, Bool, true, false, not, leb, Bool-cases,
  some, map, ltb, ◌==◌, ◌&&◌, ◌||◌, if◌then◌else◌, inl, inr, size_error, arith,
}
use tssx.Poll.{PollEvents, PollFd}
use tssx.Poll.Partition.{tell}
use tssx.Select.{
  FdSet, DescriptorSets, is_in_any_set, clear_set, clear_all_sets, with_fd, poll_entry,
  fill_poll_entries, check_poll_event_occurred, read_poll_entry, repopulate, read_poll_entries,
  empty_set, forward_to_poll, selected,
}

-- Which set an event of `poll` goes to: a descriptor that is not open is only in the error set.
abbrev pub read_event : PollEvents → Bool
read_event events = not events.pollnval && events.pollin

abbrev pub write_event : PollEvents → Bool
write_event events = not events.pollnval && events.pollout

abbrev pub error_event : PollEvents → Bool
error_event events = events.pollnval || events.pollerr

abbrev added : Bool → ℕ → FdSet → FdSet
added event fd set = if event then with_fd fd set else set

read_poll_entry_lem :
    (p : PollFd) (r w e : FdSet)
    → read_poll_entry p (record { readfds = some r; writefds = some w; errorfds = some e })
      ≡ some (record {
        readfds = some (added (read_event p.revents) p.fd r);
        writefds = some (added (write_event p.revents) p.fd w);
        errorfds = some (added (error_event p.revents) p.fd e);
      })
unfolding read_poll_entry check_poll_event_occurred
read_poll_entry_lem p r w e = ground arith

module _ (sets : DescriptorSets) (told : ℕ → PollEvents) where
  -- What the entries of `left` descriptors from `fd` on leave of a set.
  abbrev filled : ℕ → ℕ → (PollEvents → Bool) → FdSet → FdSet
  filled fd left event set = λ other.
      set other
      || (leb fd other && ltb other (fd + left) && is_in_any_set other sets && event (told other))

  filled-zero : (fd : ℕ) (event : PollEvents → Bool) (set : FdSet) → filled fd 0 event set ≡ set
  filled-zero fd event set = fun_ext (λ other. ground arith)

  filled-in :
      (fd left : ℕ) (event : PollEvents → Bool) (set : FdSet)
      → is_in_any_set fd sets ≡ true
      → filled (suc fd) left event (added (event (told fd)) fd set) ≡ filled fd (suc left) event set
  filled-in fd left event set t = fun_ext (λ other. elim (Bool-cases (other == fd)) [
    | inl same ↦
        let e : fd ≡ other = ground arith in
        let t' : is_in_any_set other sets ≡ true = ap (λ k. is_in_any_set k sets) (sym e) ∙ t in
        let told' : event (told fd) ≡ event (told other) = ap (λ k. event (told k)) e in
        ground arith
    | inr apart ↦ ground arith
  ])

  filled-out :
      (fd left : ℕ) (event : PollEvents → Bool) (set : FdSet)
      → is_in_any_set fd sets ≡ false
      → filled (suc fd) left event set ≡ filled fd (suc left) event set
  filled-out fd left event set t = fun_ext (λ other. elim (Bool-cases (other == fd)) [
    | inl same ↦
        let e : fd ≡ other = ground arith in
        let t' : is_in_any_set other sets ≡ false = ap (λ k. is_in_any_set k sets) (sym e) ∙ t in
        let told' : event (told fd) ≡ event (told other) = ap (λ k. event (told k)) e in
        ground arith
    | inr apart ↦ ground arith
  ])

  repopulate_lem :
      (fd left : ℕ) (r w e : FdSet)
      → repopulate
          (map (tell told) (fill_poll_entries sets fd left))
          (record { readfds = some r; writefds = some w; errorfds = some e })
        ≡ some (record {
          readfds = some (filled fd left read_event r);
          writefds = some (filled fd left write_event w);
          errorfds = some (filled fd left error_event e);
        })
  unfolding repopulate fill_poll_entries read_poll_entry is_in_any_set
  repopulate_lem fd zero r w e =
      rw (filled-zero fd read_event r, filled-zero fd write_event w, filled-zero fd error_event e)
        refl
  repopulate_lem fd (suc left) r w e = elim (Bool-cases (is_in_any_set fd sets)) [
    | inl t ↦ rw (t) (
        rw (read_poll_entry_lem (tell told (poll_entry sets fd)) r w e) (
          repopulate_lem (suc fd) left (added (read_event (told fd)) fd r)
            (added (write_event (told fd)) fd w) (added (error_event (told fd)) fd e)
          ∙ rw
              (
                filled-in fd left read_event r t,
                filled-in fd left write_event w t,
                filled-in fd left error_event e t,
              )
              refl))
    | inr t ↦ rw t (
        repopulate_lem (suc fd) left r w e
        ∙ rw
            (
              filled-out fd left read_event r t,
              filled-out fd left write_event w t,
              filled-out fd left error_event e t,
            )
            refl)
  ]

-- Where `poll` answers for the descriptors that are in one of the sets and below the highest one, the
-- caller's sets are read off its answer: of these descriptors, those that it tells a read event are
-- in the read set, those with a write event in the write set, and those with an error in the error set;
-- one that is not open is in the error set only. The wait returns what `poll` returns.
pub forward_lem :
    (r w e : FdSet) (told : ℕ → PollEvents) (highest_fd count : ℕ)
    → count ≢ size_error
    → let sets : DescriptorSets = record {
      readfds = some r;
      writefds = some w;
      errorfds = some e;
    } in
      forward_to_poll (λ entries. some (count, map (tell told) entries)) sets highest_fd
      ≡ some (
          selected count (record {
            readfds =
                some (λ fd. ltb fd highest_fd && is_in_any_set fd sets && read_event (told fd));
            writefds =
                some (λ fd. ltb fd highest_fd && is_in_any_set fd sets && write_event (told fd));
            errorfds =
                some (λ fd. ltb fd highest_fd && is_in_any_set fd sets && error_event (told fd));
          }))
unfolding forward_to_poll read_poll_entries clear_all_sets clear_set
forward_lem r w e told highest_fd count fine =
    let sets : DescriptorSets = record { readfds = some r; writefds = some w; errorfds = some e } in
    let t : count == size_error ≡ false = ground arith in
    let all : (event : PollEvents → Bool)
        → filled sets told 0 highest_fd event empty_set
          ≡ (λ fd. ltb fd highest_fd && is_in_any_set fd sets && event (told fd)) =
      λ event. fun_ext (λ other. ground arith) in
    rw (t, repopulate_lem sets told 0 highest_fd empty_set empty_set empty_set)
      (rw (all read_event, all write_event, all error_event) refl)
