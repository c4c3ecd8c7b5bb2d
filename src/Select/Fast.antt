-- ===== src/Select/Fast.antt =====
-- A `select` on one connected descriptor: `_select_on_tssx_only_fast_path` of
-- source/tssx/select-overrides.c.
use tssx.Base.{ℕ, Bool, Option, none, some, ◌&&◌, ◌||◌, if◌then◌else◌}
use tssx.Buffer.{read, write}
use tssx.Connection.{Connection, Segment, Side}
use tssx.Bridge.{Bridge}
use tssx.Overrides.{ready_for}
use tssx.Poll.{entry_peer_died}
use tssx.Select.{
  FdSet, DescriptorSets, fd_is_set, empty_set, clear_set, clear_all_sets, with_fd, set_fd, Selected,
  selected, null_access,
}

-- A set of the caller that holds the descriptor or nothing.
abbrev pub answered : Bool → ℕ → Option FdSet → Option FdSet
answered ready fd set = if ready then set_fd fd (clear_set set) else clear_set set

abbrev pub readable : Side → Segment → ℕ → DescriptorSets → Bool
readable side s fd sets = fd_is_set fd sets.readfds && ready_for side s read

abbrev pub writable : Side → Segment → ℕ → DescriptorSets → Bool
writable side s fd sets = fd_is_set fd sets.writefds && ready_for side s write

-- What a round comes to.
abbrev pub fast_answer : Side → Segment → ℕ → DescriptorSets → Selected
fast_answer side s fd sets =
    if entry_peer_died s
    then elim sets.readfds [
      | none ↦ null_access
      | some set ↦
          selected 1 (record (clear_all_sets sets) { readfds = some (with_fd fd empty_set) })
    ]
    else (let r = readable side s fd sets in
        let w = writable side s fd sets in
        selected (if r || w then 1 else 0) (record (clear_all_sets sets) {
          readfds = answered r fd sets.readfds;
          writefds = answered w fd sets.writefds;
        }))
