-- ===== src/Buffer/Calls.antt =====
-- `buffer_write` and `buffer_read` of source/tssx/buffer.c as whole calls: they return as soon as
-- there is space (at once where the buffer is not blocking), and move as much as there is.
use tssx.Base.{
  ℕ, ◌≤◌, ◌<◌, ◌≡◌, refl, ap, ◌∙◌, subst, inl, inr, ◌⊎◌, true, false, some, Option, List, [], ◌++◌,
  length, take, ◌==◌, min, Bool-cases, arith,
}
use tssx.Buffer.{
  Buffer, Operation, read, write, Round, Waited, get_available_space, non_blocking,
  determine_available_space, buffer_write, buffer_read,
}
use tssx.Buffer.Inv.{IsValid}
use tssx.Buffer.Put.{Wrote, write_available_lem}
use tssx.Buffer.Take.{Taken, read_result, read_available_lem}
use tssx.Buffer.Wait.{
  space_for, after, block_found, Ended, found-Ended, block_for_available_space-Ended,
  block_for_available_space_total, get_available_space_lem,
}

-- The call does not wait for ever: it need not wait, or the peer's rounds leave space.
abbrev pub WillReturn : Operation → Buffer → List Round → Type 0
WillReturn op b rounds = (non_blocking b.timeouts op ≡ true) ⊎ (0 < space_for op (after rounds b))

-- How the space for a call was found.
pub record Determined (op : Operation) (b : Buffer) (rounds : List Round) (w : Waited)
    : Type 0 where
  pub ended : Ended op b rounds w
  pub at_once : non_blocking b.timeouts op ≡ true → ended.waited ≡ []
  pub progress : non_blocking b.timeouts op ≡ false → 0 < w.space

module _ (op : Operation) (start : ℕ) (rounds : List Round) {b : Buffer} (v : IsValid b) where
  now_at_once :
      non_blocking b.timeouts op ≡ true
      → (w : Waited) × (determine_available_space b op start rounds ≡ some w)
        × Determined op b rounds w
  unfolding found-Ended determine_available_space
  now_at_once e = (
    record { space = get_available_space b op; buffer = b; levels = [] },
    rw e,
    record { ended = found-Ended op [] rounds v; at_once = λ _. refl; progress = λ f. cc },
  )

  -- Where there is space already, nothing is waited for.
  pub determine_now :
      (non_blocking b.timeouts op ≡ true) ⊎ (0 < space_for op b)
      → determine_available_space b op start rounds
        ≡ some (record { space = space_for op b; buffer = b; levels = [] })
  unfolding determine_available_space
  determine_now (inl e) = rw (e, get_available_space_lem op v)
  determine_now (inr h) =
      let z : get_available_space b op == 0 ≡ false =
        ground (arith, get_available_space_lem op v) in
      rw (block_found op start [] b rounds z, get_available_space_lem op v) (ground arith)

  pub determine_available_space_lem :
      WillReturn op b rounds
      → (w : Waited) × (determine_available_space b op start rounds ≡ some w)
        × Determined op b rounds w
  unfolding determine_available_space
  determine_available_space_lem (inl e) = now_at_once e
  determine_available_space_lem (inr h) = elim (Bool-cases (non_blocking b.timeouts op)) [
    | inl e ↦ now_at_once e
    | inr e ↦
        let (w, run) = block_for_available_space_total op start rounds [] v h in
        let (t, pos) = block_for_available_space-Ended op start rounds [] v run in
        (w, rw e run, record { ended = t; at_once = λ f. cc; progress = λ _. pos })
  ]

-- What a write of up to `n` bytes has done when it returns: after the peer's actions of the rounds
-- `waited`, as many bytes went in as fit then.
pub record Written (b : Buffer) (source : List ℕ) (n : ℕ) (rounds : List Round)
    (result : Option (ℕ × Option Buffer)) : Type 0 where
  pub waited : List Round
  pub rest : List Round
  pub order : rounds ≡ waited ++ rest
  pub at_once : non_blocking b.timeouts write ≡ true → waited ≡ []
  pub count : ℕ
  pub fits : count ≡ min (space_for write (after waited b)) n
  pub progress : non_blocking b.timeouts write ≡ false → 0 < count
  pub final : Buffer
  pub returned : result ≡ some (count, some final)
  pub wrote : Wrote (after waited b) (take count source) final

-- The same for a read, with the bytes that it delivers.
pub record Delivered (b : Buffer) (n : ℕ) (rounds : List Round)
    (result : Option (ℕ × List ℕ × Option Buffer)) : Type 0 where
  pub waited : List Round
  pub rest : List Round
  pub order : rounds ≡ waited ++ rest
  pub at_once : non_blocking b.timeouts read ≡ true → waited ≡ []
  pub count : ℕ
  pub fits : count ≡ min (space_for read (after waited b)) n
  pub progress : non_blocking b.timeouts read ≡ false → 0 < count
  pub copied : List ℕ
  pub final : Buffer
  pub returned : result ≡ some (read_result count, copied, some final)
  pub taken : Taken (after waited b) count copied final

module _ (start : ℕ) (rounds : List Round) {b : Buffer} (v : IsValid b) (n : ℕ) (pos : 0 < n) where
  -- `buffer_write` of `n` bytes into a valid buffer, where the source has as many, returns once
  -- there is space, at once if the buffer is not blocking. It returns the smaller of `n` and the
  -- space found, which is positive if it may block, and appends that many bytes of the source.
  pub buffer_write-Written :
      (source : List ℕ)
      → n ≤ length source
      → WillReturn write b rounds
      → Written b source n rounds (buffer_write (some b) (some source) n start rounds)
  unfolding buffer_write
  buffer_write-Written source h will =
      let (w, run, d) = determine_available_space_lem write start rounds v will in
      let t = d.ended in
      let (b', put, wrote) =
        write_available_lem w.buffer source (min w.space n) t.kept.valid (omega arith)
          (omega (arith, t.space, t.kept.valid.size_in)) in
      let more : n == 0 ≡ false = ground arith in
      record {
        waited = t.waited;
        rest = t.rest;
        order = t.order;
        at_once = d.at_once;
        count = min w.space n;
        fits = ap (λ s. min s n) (t.space ∙ ap (space_for write) t.buffer);
        progress = λ f. omega (arith, d.progress f);
        final = b';
        returned = rw (more, run, put);
        wrote = subst (λ x. Wrote x (take (min w.space n) source) b') t.buffer wrote;
      }

  -- `buffer_read` of up to `n` bytes from a valid buffer returns once there is a byte, at once if
  -- the buffer is not blocking. It delivers the oldest bytes, as many as there are up to `n`, takes
  -- them off the buffer and returns their number, or (size_t)-1 where there are none.
  pub buffer_read-Delivered :
      WillReturn read b rounds → Delivered b n rounds (buffer_read (some b) true n start rounds)
  unfolding buffer_read
  buffer_read-Delivered will =
      let (w, run, d) = determine_available_space_lem read start rounds v will in
      let t = d.ended in
      let (copied, b', got, taken) =
        read_available_lem w.buffer (min w.space n) t.kept.valid (omega (arith, t.space)) in
      let more : n == 0 ≡ false = ground arith in
      record {
        waited = t.waited;
        rest = t.rest;
        order = t.order;
        at_once = d.at_once;
        count = min w.space n;
        fits = ap (λ s. min s n) (t.space ∙ ap (space_for read) t.buffer);
        progress = λ f. omega (arith, d.progress f);
        copied = copied;
        final = b';
        returned = rw (more, run, got);
        taken = subst (λ x. Taken x (min w.space n) copied b') t.buffer taken;
      }
