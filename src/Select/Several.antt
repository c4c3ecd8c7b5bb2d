-- ===== src/Select/Several.antt =====
-- A `select` on several connected descriptors: `_select_on_tssx_only` of source/tssx/select-overrides.c.
use tssx.Base.{
  ℕ, zero, suc, ◌+◌, ◌-◌, ◌≤◌, ◌<◌, ◌≡◌, refl, Bool, true, false, Option, none, some, List, ◌∷◌,
  ltb, ◌==◌, ◌&&◌, ◌||◌, if◌then◌else◌, inl, inr, ◌⊎◌, arith,
}
use tssx.Buffer.{read, write}
use tssx.Connection.{Connection, Segment, Side}
use tssx.Bridge.{Bridge}
use tssx.Bridge.Inv.{connection_at}
use tssx.Overrides.{ready_for}
use tssx.Poll.{View, Look, entry_peer_died}
use tssx.Select.{
  FdSet, DescriptorSets, fd_is_set, copy_set, copy_all_sets, clear_all_sets, set_fd, Counts,
  ready_for_select, waiting_and_ready_for_select, check_select_events, select_round,
  select_timeout_elapsed, tssx_rounds, selected, select_on_tssx_only,
}

-- A descriptor is counted: its peer is gone, or it is ready for what it is selected for.
abbrev pub is_counted : Side → Segment → DescriptorSets → ℕ → Bool
is_counted side s sets fd =
    entry_peer_died s
    || (fd_is_set fd sets.readfds && ready_for side s read)
    || (fd_is_set fd sets.writefds && ready_for side s write)

-- How many of `left` descriptors from `fd` on are counted.
unfoldable pub count_of : Side → View → (ℕ → Connection) → DescriptorSets → ℕ → ℕ → ℕ
count_of side view at sets fd zero = 0
count_of side view at sets fd (suc left) =
    let rest = count_of side view at sets (suc fd) left in
    if is_counted side (view (at fd)) sets fd then suc rest else rest

-- The sets say the same of the descriptors from a place on.
record Same (fd : ℕ) (sets original : DescriptorSets) : Type 0 where
  reads : (k : ℕ) → fd ≤ k → fd_is_set k sets.readfds ≡ fd_is_set k original.readfds
  writes : (k : ℕ) → fd ≤ k → fd_is_set k sets.writefds ≡ fd_is_set k original.writefds

set_fd_other :
    (fd k : ℕ) (set : Option FdSet) → fd < k → fd_is_set k (set_fd fd set) ≡ fd_is_set k set
unfolding set_fd fd_is_set
set_fd_other fd k none h = refl
set_fd_other fd k (some set) h = ground arith

copied : (k : ℕ) (set : Option FdSet) → fd_is_set k (some (copy_set set)) ≡ fd_is_set k set
unfolding fd_is_set copy_set
copied k none = refl
copied k (some set) = refl

module _ (side : Side) (b : Bridge) (view : View) (at : ℕ → Connection) where
  check_lem :
      (s : Segment) (fd : ℕ) (sets original : DescriptorSets)
      → Same fd sets original
      → let (ready, sets') = check_select_events side s fd sets in
        (ready ≡ is_counted side s original fd) × Same (suc fd) sets' original
  unfolding check_select_events waiting_and_ready_for_select ready_for_select
  check_lem s fd sets original same =
      let r = same.reads fd (omega arith) in
      let w = same.writes fd (omega arith) in
      (
        ground (arith, r, w),
        record {
          reads = λ k h.
              let o = set_fd_other fd k sets.readfds h in
              let e = same.reads k (omega (arith, h)) in ground (arith, o, e);
          writes = λ k h.
              let o = set_fd_other fd k sets.writefds h in
              let e = same.writes k (omega (arith, h)) in ground (arith, o, e);
        },
      )

  round_lem :
      (fd left : ℕ) (sets original : DescriptorSets)
      → ((k : ℕ) → fd ≤ k → k < fd + left → connection_at b k ≡ some (at k))
      → Same fd sets original
      → (sets' : DescriptorSets) × (select_round side b view fd left sets
          ≡ some (count_of side view at original fd left, sets'))
  unfolding select_round count_of
  round_lem fd zero sets original connected same = (sets, refl)
  round_lem fd (suc left) sets original connected same =
      let here = connected fd (omega arith) (omega arith) in
      let (ready, same') = check_lem (view (at fd)) fd sets original same in
      let (sets', rest) =
        round_lem (suc fd) left (check_select_events side (view (at fd)) fd sets).1 original
          (λ k h l. connected k (omega (arith, h)) (omega (arith, l))) same' in
      (sets', rw (select_round, here, rest, ready) refl)

-- A `select` on other than one connected descriptor, where each descriptor from the lowest one selected to
-- the highest is connected, returns in its first round if a descriptor is to be counted or the time is
-- over: it returns the number of those that are ready for what they are selected for or whose peer
-- is gone. The caller's sets are then empty, whatever was ready.
pub several_lem :
    (side : Side) (b : Bridge) (at : ℕ → Connection) (sets : DescriptorSets) (counts : Counts)
    (highest_fd start timeout : ℕ) (look : Look) (looks : List Look)
    → counts.tssx_count == 1 ≡ false
    → ((k : ℕ)
        → counts.lowest_fd ≤ k
        → k < counts.lowest_fd + (highest_fd - counts.lowest_fd)
        → connection_at b k ≡ some (at k))
    → let found =
        count_of side look.view at sets counts.lowest_fd (highest_fd - counts.lowest_fd) in
      (0 < found) ⊎ (select_timeout_elapsed start look.now timeout ≡ true)
      → select_on_tssx_only side b sets counts highest_fd start timeout (look ∷ looks)
        ≡ some (selected found (clear_all_sets sets))
unfolding select_on_tssx_only tssx_rounds
several_lem side b at sets counts highest_fd start timeout look looks t connected ends =
    let left = highest_fd - counts.lowest_fd in
    let copy = copy_all_sets sets in
    let (sets', round) =
      round_lem side b look.view at counts.lowest_fd left copy sets connected
        (record { reads = λ k h. copied k sets.readfds; writes = λ k h. copied k sets.writefds }) in
    rw (t, tssx_rounds, round)
      (elim ends [
        | inl more ↦
            let found : ltb 0 (count_of side look.view at sets counts.lowest_fd left) ≡ true =
              ground arith in
            rw found refl
        | inr over ↦ rw over (ground arith)
      ])
