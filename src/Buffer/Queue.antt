-- ===== src/Buffer/Queue.antt =====
-- The abstract view of a buffer in non-blocking mode: a queue of at most `capacity` bytes, the calls
-- that a client makes on it, and what each call returns.
use tssx.Base.{
  ℕ, ◌-◌, List, [], ◌∷◌, ◌++◌, length, take, drop, min, ◌==◌, if◌then◌else◌, size_error,
}

pub data Call : Type 0 where
  put : List ℕ → Call
  get peek : ℕ → Call
  clear : Call

-- The number that a call returns, with the bytes that it delivers.
abbrev pub Reply : Type 0
Reply = ℕ × List ℕ

-- What a queue delivers for a read of up to `n` bytes.
unfoldable pub delivery : List ℕ → ℕ → Reply
delivery queue n =
    if n == 0
    then (0, [])
    else if length queue == 0
    then (size_error, [])
    else (min (length queue) n, take n queue)

unfoldable pub step : ℕ → List ℕ → Call → Reply × List ℕ
unfolding delivery
step capacity queue (put source) =
    let n = min (capacity - length queue) (length source) in ((n, []), queue ++ take n source)
step capacity queue (get n) = (delivery queue n, drop n queue)
step capacity queue (peek n) = (delivery queue n, queue)
step capacity queue clear = ((0, []), [])

unfoldable pub run : ℕ → List ℕ → List Call → List Reply × List ℕ
run capacity queue [] = ([], queue)
run capacity queue (c ∷ cs) =
    let (reply, queue') = step capacity queue c in
    let (replies, final) = run capacity queue' cs in (reply ∷ replies, final)
