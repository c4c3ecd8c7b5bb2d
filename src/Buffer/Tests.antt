-- ===== src/Buffer/Tests.antt =====
-- The buffer of source/tssx/buffer.c run on small inputs, and the theorems about it at such inputs.
use tssx.Base.{
  ◌+◌, ◌<◌, ◌≡◌, refl, inl, inr, true, false, none, some, List, [], ◌∷◌, length, ◌==◌, ◌↔◌, blit,
  size_error, arith,
}
use tssx.Buffer.{
  Buffer, Timeouts, Operation, idle, puts, peer_action, Round, non_blocking, reduce_data,
  wrap_write, finish_write, wrap_read, finish_read, write_available, read_available, buffer_write,
  buffer_read, buffer_peek, buffer_skip, buffer_clear, create_buffer, buffer_is_full,
  buffer_is_empty, buffer_ready_for, buffer_free_space, get_available_space, escalation_level,
  block_for_available_space, determine_available_space,
}
use tssx.Buffer.Ring.{window}
use tssx.Buffer.Inv.{IsValid, contents}
use tssx.Buffer.Wait.{after, space_for}
use tssx.Buffer.Calls.{Written, Delivered, buffer_write-Written, buffer_read-Delivered}
use tssx.Buffer.Queries.{queries_lem, buffer_clear_lem, buffer_peek_lem, buffer_skip-breaks}
use tssx.Buffer.Queue
use tssx.Buffer.Queue.{put, get, peek, clear}
use tssx.Buffer.Fifo.{Models, run, run-Queue}
use tssx.Buffer.Race.{Lost, reader_ahead, write_available-reader_ahead, buffer_peek-loses}

-- What a run of the buffer computes with.
program : Unit {0}
unfolding reduce_data wrap_write finish_write wrap_read finish_read write_available read_available
    buffer_write buffer_read buffer_peek buffer_skip buffer_clear create_buffer buffer_is_full
    buffer_is_empty buffer_ready_for buffer_free_space get_available_space escalation_level
    block_for_available_space determine_available_space non_blocking peer_action blit window after
program = tt

abbrev never_blocks : Timeouts
never_blocks = record {
  non_blocking_read = true;
  non_blocking_write = true;
  level_zero = 0;
  level_one = 100000;
}

abbrev blocks : Timeouts
blocks = record never_blocks { non_blocking_read = false; non_blocking_write = false }

-- 5, then 6, round the end of the memory.
abbrev wrapped : Buffer
wrapped = record {
  size = 2;
  capacity = 4;
  timeouts = never_blocks;
  read = 3;
  write = 1;
  bytes = 6 ∷ 0 ∷ 0 ∷ 5 ∷ [];
}

abbrev waiting : Buffer
waiting = record wrapped { size = 0; timeouts = blocks; read = 1 }

wrapped-IsValid : IsValid wrapped
wrapped-IsValid = omega arith

waiting-IsValid : IsValid waiting
waiting-IsValid = omega arith

contents-wrapped : contents wrapped ≡ 5 ∷ 6 ∷ []
unfolding program
contents-wrapped = refl

write_fills :
    buffer_write (some wrapped) (some (7 ∷ 8 ∷ 9 ∷ [])) 3 0 []
    ≡ some (2, some (record wrapped { size = 4; write = 3; bytes = 6 ∷ 7 ∷ 8 ∷ 5 ∷ [] }))
unfolding program
write_fills = refl

read_goes_round :
    buffer_read (some wrapped) true 9 0 []
    ≡ some (2, 5 ∷ 6 ∷ [], some (record wrapped { size = 0; read = 1 }))
unfolding program
read_goes_round = refl

read_of_nothing :
    buffer_read (some (buffer_clear wrapped)) true 9 0 []
    ≡ some (size_error, [], some (buffer_clear wrapped))
unfolding program
read_of_nothing = refl

-- A blocked reader waits one round for an idle peer, and gets what the peer writes in the second.
abbrev two_rounds : List Round
two_rounds = record { now = 7; action = idle } ∷ record { now = 9; action = puts (1 ∷ 2 ∷ []) } ∷ []

blocked_read :
    buffer_read (some waiting) true 9 5 two_rounds
    ≡ some
        (2, 1 ∷ 2 ∷ [], some (record waiting { read = 3; write = 3; bytes = 6 ∷ 1 ∷ 2 ∷ 5 ∷ [] }))
unfolding program
blocked_read = refl

still_blocked : buffer_read (some waiting) true 9 5 [] ≡ none
unfolding program
still_blocked = refl

buffer_write-Written_example :
    Written wrapped
      (7 ∷ 8 ∷ 9 ∷ [])
      3
      []
      (buffer_write (some wrapped) (some (7 ∷ 8 ∷ 9 ∷ [])) 3 0 [])
unfolding non_blocking
buffer_write-Written_example =
    buffer_write-Written 0 [] wrapped-IsValid 3 (omega arith) (7 ∷ 8 ∷ 9 ∷ []) (omega arith)
      (inl refl)

buffer_read-Delivered_example :
    Delivered waiting 9 two_rounds (buffer_read (some waiting) true 9 5 two_rounds)
unfolding program
buffer_read-Delivered_example =
    buffer_read-Delivered 5 two_rounds waiting-IsValid 9 (omega arith) (inr (omega arith))

queries_lem_example :
    (buffer_is_full wrapped ≡ (length (contents wrapped) == 4))
    × (buffer_is_empty wrapped ≡ (length (contents wrapped) == 0))
    × (buffer_free_space wrapped + length (contents wrapped) ≡ 4)
    × ((op : Operation) → (buffer_ready_for wrapped op ≡ true) ↔ (0 < space_for op wrapped))
queries_lem_example = queries_lem wrapped-IsValid

buffer_clear_lem_example :
    IsValid (buffer_clear wrapped)
    × (contents (buffer_clear wrapped) ≡ [])
    × ((buffer_clear wrapped).capacity ≡ 4)
buffer_clear_lem_example = buffer_clear_lem wrapped-IsValid

buffer_peek_lem_example : buffer_peek wrapped true 1 0 [] ≡ some (1, 5 ∷ [], some wrapped)
unfolding program
buffer_peek_lem_example = buffer_peek_lem 0 [] 1 wrapped-IsValid (omega arith) (inl refl)

buffer_skip-breaks_example :
    (buffer_skip wrapped 1 ≡ (1, record wrapped { read = 0 })) × ¬ IsValid (buffer_skip wrapped 1).1
buffer_skip-breaks_example =
    buffer_skip-breaks 1 wrapped-IsValid (omega arith) (omega arith) (omega arith)

wrapped-Models : Models 4 (5 ∷ 6 ∷ []) wrapped
unfolding program
wrapped-Models = record {
  valid = wrapped-IsValid;
  never = record { reads = refl; writes = refl };
  width = refl;
  holds = refl;
}

run-Queue_example :
    let calls = put (7 ∷ 8 ∷ 9 ∷ []) ∷ peek 1 ∷ get 3 ∷ clear ∷ get 1 ∷ [] in
    (final : Buffer) × (run wrapped calls ≡ some ((Queue.run 4 (5 ∷ 6 ∷ []) calls).0, final))
    × Models 4 (Queue.run 4 (5 ∷ 6 ∷ []) calls).1 final
run-Queue_example =
    run-Queue (put (7 ∷ 8 ∷ 9 ∷ []) ∷ peek 1 ∷ get 3 ∷ clear ∷ get 1 ∷ []) wrapped-Models

-- An unwrapped buffer, whose reader has moved on over both bytes.
abbrev straight : Buffer
straight = record wrapped { read = 1; write = 3 }

straight-IsValid : IsValid straight
straight-IsValid = omega arith

write_available-reader_ahead_example : write_available (reader_ahead straight 2) (7 ∷ 8 ∷ []) 2 ≡ (
  (write_available straight (7 ∷ 8 ∷ []) 2).0,
  record ((write_available straight (7 ∷ 8 ∷ []) 2).1) { read = 3 },
)
write_available-reader_ahead_example =
    write_available-reader_ahead straight (7 ∷ 8 ∷ []) 2 2 straight-IsValid (omega arith)
      (omega arith)

buffer_peek-loses_example :
    Lost waiting
      (1 ∷ 2 ∷ [])
      9
      (buffer_peek waiting true 9 5 (record { now = 6; action = puts (1 ∷ 2 ∷ []) } ∷ []))
unfolding non_blocking
buffer_peek-loses_example =
    buffer_peek-loses 5 6 (1 ∷ 2 ∷ []) 9 waiting-IsValid refl refl (omega arith) (omega arith)
