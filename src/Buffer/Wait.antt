-- ===== src/Buffer/Wait.antt =====
-- Waiting for space in source/tssx/buffer.c, `_determine_available_space` and what it calls, while
-- the peer works on the same buffer.
use tssx.Base.{
  ℕ, ◌-◌, ◌<◌, ◌≡◌, refl, sym, ap, subst, ◌∙◌, take, inl, inr, true, false, none, some, List, [],
  ◌∷◌, ◌++◌, length, ◌==◌, min, Bool-cases, eq_of_some, arith,
}
use tssx.Buffer.{
  Buffer, Operation, read, write, Action, idle, puts, takes, peer_action, Level, Round, Waited,
  get_available_space, buffer_free_space, block_for_available_space, escalation_level,
  write_available, read_available,
}
use tssx.Buffer.Inv.{IsValid}
use tssx.Buffer.Put.{Wrote, write_available_lem}
use tssx.Buffer.Take.{Taken, read_available_lem}

pub free_space_lem : {b : Buffer} → IsValid b → buffer_free_space b ≡ b.capacity - b.size
unfolding buffer_free_space
free_space_lem {b} v = ground (arith, v.small, v.size_in)

-- What there is to read or to write, as a number that does not wrap.
abbrev pub space_for : Operation → Buffer → ℕ
space_for read b = b.size
space_for write b = b.capacity - b.size

pub get_available_space_lem :
    (op : Operation) {b : Buffer} → IsValid b → get_available_space b op ≡ space_for op b
unfolding get_available_space
get_available_space_lem read {b} v = ground (arith, v.small, v.size_in)
get_available_space_lem write {b} v = free_space_lem v

-- What the peer's call leaves alone.
pub record Kept (b b' : Buffer) : Type 0 where
  pub valid : IsValid b'
  pub capacity : b'.capacity ≡ b.capacity
  pub timeouts : b'.timeouts ≡ b.timeouts

-- The peer's calls, as what they leave.
pub puts_lem :
    (source : List ℕ) {b : Buffer}
    → IsValid b
    → Wrote b
        (take (min (b.capacity - b.size) (length source)) source)
        (peer_action (puts source) b)
unfolding peer_action
puts_lem source {b} v =
    let n = min (b.capacity - b.size) (length source) in
    let (b', run, w) = write_available_lem b source n v (omega arith) (omega (arith, v.size_in)) in
    let e : peer_action (puts source) b ≡ b' =
      ap (λ m. (write_available b source (min m (length source))).1)
        (get_available_space_lem write v)
      ∙ ap (λ p. p.1) run in
    subst (Wrote b (take n source)) (sym e) w

pub takes_lem :
    (n : ℕ) {b : Buffer}
    → IsValid b
    → (copied : List ℕ) × Taken b (min b.size n) copied (peer_action (takes n) b)
unfolding peer_action
takes_lem n {b} v =
    let (copied, b', run, w) = read_available_lem b (min b.size n) v (omega arith) in
    let e : peer_action (takes n) b ≡ b' =
      ap (λ m. (read_available b (min m n)).2) (get_available_space_lem read v)
      ∙ ap (λ p. p.2) run in
    (copied, subst (Taken b (min b.size n) copied) (sym e) w)

pub idle_lem : (b : Buffer) → peer_action idle b ≡ b
unfolding peer_action
idle_lem b = refl

pub peer_action-Kept : (a : Action) {b : Buffer} → IsValid b → Kept b (peer_action a b)
peer_action-Kept idle {b} v =
    subst (Kept b) (sym (idle_lem b)) (record { valid = v; capacity = refl; timeouts = refl })
peer_action-Kept (puts source) v =
    let w = puts_lem source v in
    record { valid = w.valid; capacity = w.capacity; timeouts = w.timeouts }
peer_action-Kept (takes n) v =
    let (copied, w) = takes_lem n v in
    record { valid = w.valid; capacity = w.capacity; timeouts = w.timeouts }

-- The buffer after the peer's actions of some rounds.
unfoldable pub after : List Round → Buffer → Buffer
after [] b = b
after (r ∷ rs) b = after rs (peer_action r.action b)

pub after-Kept : (rounds : List Round) {b : Buffer} → IsValid b → Kept b (after rounds b)
unfolding after
after-Kept [] v = record { valid = v; capacity = refl; timeouts = refl }
after-Kept (r ∷ rs) v =
    let k = peer_action-Kept r.action v in
    let t = after-Kept rs k.valid in
    record {
      valid = t.valid;
      capacity = t.capacity ∙ k.capacity;
      timeouts = t.timeouts ∙ k.timeouts;
    }

module _ (op : Operation) (start : ℕ) (levels : List Level) (b : Buffer) where
  abbrev pub found : Waited
  found = record { space = get_available_space b op; buffer = b; levels = levels }

  pub block_found :
      (rounds : List Round)
      → get_available_space b op == 0 ≡ false
      → block_for_available_space b op start rounds levels ≡ some found
  unfolding block_for_available_space
  block_found [] z = rw z
  block_found (r ∷ rs) z = rw z

  block_over :
      get_available_space b op == 0 ≡ true → block_for_available_space b op start [] levels ≡ none
  unfolding block_for_available_space
  block_over z = rw z

  pub block_again :
      (r : Round) (rs : List Round)
      → get_available_space b op == 0 ≡ true
      → block_for_available_space b op start (r ∷ rs) levels
        ≡ block_for_available_space
            (peer_action r.action b)
            op
            start
            rs
            (levels ++ (escalation_level b start r.now ∷ []))
  unfolding block_for_available_space
  block_again r rs z = rw z

-- How a wait ends: after some of the rounds, with the space of the buffer that is there then.
pub record Ended (op : Operation) (b : Buffer) (rounds : List Round) (w : Waited) : Type 0 where
  pub waited : List Round
  pub rest : List Round
  pub order : rounds ≡ waited ++ rest
  pub buffer : w.buffer ≡ after waited b
  pub kept : Kept b w.buffer
  pub space : w.space ≡ space_for op w.buffer

unfoldable pub found-Ended :
    (op : Operation) (levels : List Level) (rounds : List Round) {b : Buffer}
    → IsValid b
    → Ended op b rounds (record { space = get_available_space b op; buffer = b; levels = levels })
unfolding after
found-Ended op levels rounds v = record {
  waited = [];
  rest = rounds;
  order = refl;
  buffer = refl;
  kept = record { valid = v; capacity = refl; timeouts = refl };
  space = get_available_space_lem op v;
}

later-Ended :
    (op : Operation) (r : Round) (rs : List Round) {b : Buffer} {w : Waited}
    → Kept b (peer_action r.action b)
    → Ended op (peer_action r.action b) rs w
    → Ended op b (r ∷ rs) w
unfolding after
later-Ended op r rs k t = record {
  waited = r ∷ t.waited;
  rest = t.rest;
  order = ap (λ l. r ∷ l) t.order;
  buffer = t.buffer;
  kept = record {
    valid = t.kept.valid;
    capacity = t.kept.capacity ∙ k.capacity;
    timeouts = t.kept.timeouts ∙ k.timeouts;
  };
  space = t.space;
}

-- A blocking wait that returns has found space.
pub block_for_available_space-Ended :
    (op : Operation) (start : ℕ) (rounds : List Round) (levels : List Level) {b : Buffer}
    {w : Waited}
    → IsValid b
    → block_for_available_space b op start rounds levels ≡ some w
    → Ended op b rounds w × (0 < w.space)
block_for_available_space-Ended op start [] levels {b} {w} v e =
    elim (Bool-cases (get_available_space b op == 0)) [
      | inl z ↦ cc (block_over op start levels b z)
      | inr z ↦
          subst (λ x. Ended op b [] x × (0 < x.space))
            (eq_of_some (sym (block_found op start levels b [] z) ∙ e))
            (found-Ended op levels [] v, ground arith)
    ]
block_for_available_space-Ended op start (r ∷ rs) levels {b} {w} v e =
    elim (Bool-cases (get_available_space b op == 0)) [
      | inl z ↦
          let k = peer_action-Kept r.action v in
          let (t, pos) =
            block_for_available_space-Ended op start rs
              (levels ++ (escalation_level b start r.now ∷ [])) k.valid
              (sym (block_again op start levels b r rs z) ∙ e) in
          (later-Ended op r rs k t, pos)
      | inr z ↦
          subst (λ x. Ended op b (r ∷ rs) x × (0 < x.space))
            (eq_of_some (sym (block_found op start levels b (r ∷ rs) z) ∙ e))
            (found-Ended op levels (r ∷ rs) v, ground arith)
    ]

-- A blocking wait returns, at the latest when the rounds leave space.
pub block_for_available_space_total :
    (op : Operation) (start : ℕ) (rounds : List Round) (levels : List Level) {b : Buffer}
    → IsValid b
    → 0 < space_for op (after rounds b)
    → (w : Waited) × (block_for_available_space b op start rounds levels ≡ some w)
unfolding after
block_for_available_space_total op start [] levels {b} v h =
    (_, block_found op start levels b [] (ground (arith, get_available_space_lem op v)))
block_for_available_space_total op start (r ∷ rs) levels {b} v h =
    elim (Bool-cases (get_available_space b op == 0)) [
      | inl z ↦
          let k = peer_action-Kept r.action v in
          let (w, run) =
            block_for_available_space_total op start rs
              (levels ++ (escalation_level b start r.now ∷ [])) k.valid h in
          (w, block_again op start levels b r rs z ∙ run)
      | inr z ↦ (_, block_found op start levels b (r ∷ rs) z)
    ]
