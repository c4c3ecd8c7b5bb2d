-- ===== src/Bridge/Single.antt =====
-- Three bridges of source/tssx/bridge.c: the one that a process starts with, one without a connection, and
-- one with a connection for descriptor 0.
use tssx.Base.{
  ℕ, zero, suc, ◌≡◌, refl, sym, ap, none, some, true, ◌∷◌, replicate, length-replicate, arith,
}
use tssx.Connection.{Connection}
use tssx.Bridge.{Session, Bridge, bridge_initializer, session_has_connection}
use tssx.Bridge.Users.{connections}
use tssx.Bridge.Inv.{IsValid}

abbrev no_session : Session
no_session = record { connection = none }

connections-replicate : (n : ℕ) → connections (replicate n no_session) ≡ 0
unfolding connections session_has_connection
connections-replicate zero = refl
connections-replicate (suc n) = let h = connections-replicate n in omega arith

pub bridge_initializer-IsValid : IsValid bridge_initializer
bridge_initializer-IsValid = record {
  width = length-replicate 1024 no_session;
  counted = sym (connections-replicate 1024);
  fresh = λ e. refl;
}

-- Set up, with no connection.
abbrev pub vacant : Bridge
vacant = record {
  is_initialized = true;
  connection_count = 0;
  session_table = no_session ∷ replicate 1023 no_session;
}

pub vacant-IsValid : IsValid vacant
vacant-IsValid = record {
  width = ap suc (length-replicate 1023 no_session);
  counted = sym (connections-replicate 1024);
  fresh = λ e. refl;
}

abbrev pub single : Connection → Bridge
single c = record {
  is_initialized = true;
  connection_count = 1;
  session_table = record { connection = some c } ∷ replicate 1023 no_session;
}

pub single-connections : (c : Connection) → connections (single c).session_table ≡ 1
unfolding connections session_has_connection
single-connections c = let h = connections-replicate 1023 in omega arith

pub single-IsValid : (c : Connection) → IsValid (single c)
single-IsValid c = record {
  width = ap suc (length-replicate 1023 no_session);
  counted = sym (single-connections c);
  fresh = λ e. absurd cc;
}
