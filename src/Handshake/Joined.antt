-- ===== src/Handshake/Joined.antt =====
-- What the handshake of source/tssx/server-overrides.c and source/tssx/client-overrides.c keeps, in whatever
-- order the two processes take their steps.
use tssx.Base.{
  ℕ, ◌≡◌, ◌≢◌, refl, sym, ap, ◌∙◌, subst, Bool, true, false, ◌⊎◌, inl, inr, Option, none, some,
  eq_of_some,
}
use tssx.Connection.{Connection, Memory, Segment}
use tssx.Bridge.{Bridge}
use tssx.Bridge.Inv
use tssx.Bridge.Inv.{connection_at, bridge_insert_lem}
use tssx.Handshake.{
  ServerSetup, starting, sending, waiting, released, accepted, server_failed, ClientSetup, reading,
  joining, joined, synchronized, connected, client_failed, Handshake,
}

abbrev pub shared : ℕ → Connection
shared id = record { segment_id = some id }

-- Before the first step.
abbrev pub at_start : Memory → Bridge → Bridge → Handshake
at_start memory ours theirs = record {
  memory = memory;
  server = starting;
  client = reading;
  to_client = none;
  to_server = false;
  server_bridge = ours;
  client_bridge = theirs;
}

-- A bridge that has the connection.
abbrev pub Has : ℕ → ℕ → Bridge → Type 0
Has id fd b = Inv.IsValid b × (connection_at b fd ≡ some (shared id))

module _ (id server_fd client_fd : ℕ) (s : Segment) (ours theirs : Bridge) where
  -- The segment with a number of users.
  abbrev pub Alive : ℕ → Memory → Type 0
  Alive users memory = memory id ≡ some (record s { open_count = users })

  -- What holds where neither process has failed.
  abbrev pub At : ServerSetup → ClientSetup → Memory → Option ℕ → Bool → Bridge → Bridge → Type 0
  At starting reading m tc ts sb cb = (tc ≡ none) × (ts ≡ false) × (sb ≡ ours) × (cb ≡ theirs)
  At (sending c) reading m tc ts sb cb =
      (c ≡ shared id) × (tc ≡ none) × (ts ≡ false) × Alive 1 m × (sb ≡ ours) × (cb ≡ theirs)
  At (waiting c) reading m tc ts sb cb =
      (c ≡ shared id) × (tc ≡ some id) × (ts ≡ false) × Alive 1 m × (sb ≡ ours) × (cb ≡ theirs)
  At (waiting c) (joining k) m tc ts sb cb =
      (c ≡ shared id) × (k ≡ id) × (ts ≡ false) × Alive 1 m × (sb ≡ ours) × (cb ≡ theirs)
  At (waiting c) (joined d) m tc ts sb cb =
      (c ≡ shared id) × (d ≡ shared id) × (ts ≡ false) × Alive 2 m × (sb ≡ ours) × (cb ≡ theirs)
  At (waiting c) (synchronized d) m tc ts sb cb =
      (c ≡ shared id) × (d ≡ shared id) × Alive 2 m × (sb ≡ ours) × (cb ≡ theirs)
  At (waiting c) connected m tc ts sb cb =
      (c ≡ shared id) × Alive 2 m × (sb ≡ ours) × Has id client_fd cb
  At (released c) (synchronized d) m tc ts sb cb =
      (c ≡ shared id) × (d ≡ shared id) × Alive 2 m × (sb ≡ ours) × (cb ≡ theirs)
  At (released c) connected m tc ts sb cb =
      (c ≡ shared id) × Alive 2 m × (sb ≡ ours) × Has id client_fd cb
  At accepted (synchronized d) m tc ts sb cb =
      (d ≡ shared id) × Alive 2 m × Has id server_fd sb × (cb ≡ theirs)
  At accepted connected m tc ts sb cb = Alive 2 m × Has id server_fd sb × Has id client_fd cb
  At _ _ m tc ts sb cb = ⊥

  abbrev pub Fine : Handshake → Type 0
  Fine h =
      (h.server ≡ server_failed)
      ⊎ (h.client ≡ client_failed)
      ⊎ At h.server h.client h.memory h.to_client h.to_server h.server_bridge h.client_bridge

  module _ (m : Memory) (tc : Option ℕ) (ts : Bool) (sb cb : Bridge) where
    pub sends-At :
        (c : Connection) (client : ClientSetup)
        → At (sending c) client m tc ts sb cb
        → At (waiting c) client m c.segment_id ts sb cb
    sends-At c reading (e, _, t, a, b, d) = (e, ap (λ c. c.segment_id) e, t, a, b, d)
    sends-At c _ x = absurd x

    pub byte-At :
        (c : Connection) (client : ClientSetup)
        → At (waiting c) client m tc ts sb cb
        → ts ≡ true
        → At (released c) client m tc false sb cb
    byte-At c reading (_, _, t, _, _, _) y = absurd cc
    byte-At c (joining k) (_, _, t, _, _, _) y = absurd cc
    byte-At c (joined d) (_, _, t, _, _, _) y = absurd cc
    byte-At c (synchronized d) x y = x
    byte-At c connected x y = x
    byte-At c client_failed x y = absurd x

    pub read-At :
        (server : ServerSetup) (sent : ℕ)
        → At server reading m tc ts sb cb
        → tc ≡ some sent
        → At server (joining sent) m none ts sb cb
    read-At starting sent (t, _, _, _) y = absurd cc
    read-At (sending c) sent (_, t, _, _, _, _) y = absurd cc
    read-At (waiting c) sent (e, t, u, a, b, d) y = (e, eq_of_some (sym y ∙ t), u, a, b, d)
    read-At _ sent x y = absurd x

    pub synchronizes-At :
        (server : ServerSetup) (d : Connection)
        → At server (joined d) m tc ts sb cb
        → At server (synchronized d) m tc true sb cb
    synchronizes-At (waiting c) d (e, f, _, a, b, g) = (e, f, a, b, g)
    synchronizes-At starting d x = absurd x
    synchronizes-At (sending c) d x = absurd x
    synchronizes-At (released c) d x = absurd x
    synchronizes-At accepted d x = absurd x
    synchronizes-At server_failed d x = absurd x

    pub server-At :
        (c : Connection) (client : ClientSetup)
        → At (released c) client m tc ts sb cb
        → (c ≡ shared id)
          × (sb ≡ ours)
          × ((b : Bridge) → Has id server_fd b → At accepted client m tc ts b cb)
    server-At c (synchronized d) (e, f, a, b, g) = (e, b, λ b' has. (f, a, has, g))
    server-At c connected (e, a, b, g) = (e, b, λ b' has. (a, has, g))
    server-At c reading x = absurd x
    server-At c (joining k) x = absurd x
    server-At c (joined d) x = absurd x
    server-At c client_failed x = absurd x

    pub client-At :
        (server : ServerSetup) (d : Connection)
        → At server (synchronized d) m tc ts sb cb
        → (d ≡ shared id)
          × (cb ≡ theirs)
          × ((b : Bridge) → Has id client_fd b → At server connected m tc ts sb b)
    client-At (waiting c) d (e, f, a, b, g) = (f, g, λ b' has. (e, a, b, has))
    client-At (released c) d (e, f, a, b, g) = (f, g, λ b' has. (e, a, b, has))
    client-At accepted d (f, a, b, g) = (f, g, λ b' has. (a, b, has))
    client-At starting d x = absurd x
    client-At (sending c) d x = absurd x
    client-At server_failed d x = absurd x

    pub setup-At :
        (server : ServerSetup) (k : ℕ)
        → At server (joining k) m tc ts sb cb
        → (k ≡ id)
          × Alive 1 m
          × ((m' : Memory) → Alive 2 m' → At server (joined (shared id)) m' tc ts sb cb)
    setup-At (waiting c) k (e, f, t, a, b, g) = (f, a, λ m' two. (e, refl, t, two, b, g))
    setup-At starting k x = absurd x
    setup-At (sending c) k x = absurd x
    setup-At (released c) k x = absurd x
    setup-At accepted k x = absurd x
    setup-At server_failed k x = absurd x

    pub starting-At :
        (client : ClientSetup)
        → At starting client m tc ts sb cb
        → (m' : Memory) → Alive 1 m'
        → At (sending (shared id)) client m' tc ts sb cb
    starting-At reading (t, u, b, g) m' one = (refl, t, u, one, b, g)
    starting-At (joining k) x m' one = absurd x
    starting-At (joined d) x m' one = absurd x
    starting-At (synchronized d) x m' one = absurd x
    starting-At connected x m' one = absurd x
    starting-At client_failed x m' one = absurd x

  -- The state, with the phase that a step starts from put in.
  pub server_is :
      (h : Handshake) (phase : ServerSetup)
      → h.server ≡ phase
      → phase ≢ server_failed
      → Fine h
      → (h.client ≡ client_failed)
        ⊎ At phase h.client h.memory h.to_client h.to_server h.server_bridge h.client_bridge
  server_is h phase e n (inl f) = absurd (n (sym e ∙ f))
  server_is h phase e n (inr (inl f)) = inl f
  server_is h phase e n (inr (inr at)) = inr (
      subst (λ p. At p h.client h.memory h.to_client h.to_server h.server_bridge h.client_bridge) e
        at)

  pub client_is :
      (h : Handshake) (phase : ClientSetup)
      → h.client ≡ phase
      → phase ≢ client_failed
      → Fine h
      → (h.server ≡ server_failed)
        ⊎ At h.server phase h.memory h.to_client h.to_server h.server_bridge h.client_bridge
  client_is h phase e n (inl f) = inl f
  client_is h phase e n (inr (inl f)) = absurd (n (sym e ∙ f))
  client_is h phase e n (inr (inr at)) = inr (
      subst (λ p. At h.server p h.memory h.to_client h.to_server h.server_bridge h.client_bridge) e
        at)
