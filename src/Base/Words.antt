-- ===== src/Base/Words.antt =====
-- Machine integers as numbers below a power of two: `size_t` has 64 bits, `int` has 32.
use Prim.Native.Nat.{ℕ, ◌+◌, ◌-◌, ◌*◌, ◌%◌, ◌^◌}
use tssx.Base.Tests.{ltb, if◌then◌else◌}

abbrev pub size_modulus : ℕ
size_modulus = 2 ^ 64

abbrev pub int_modulus : ℕ
int_modulus = 2 ^ 32

-- The largest value of a non-negative `int`, plus one.
abbrev pub int_limit : ℕ
int_limit = 2 ^ 31

-- `(size_t)-1`, which is what ERROR becomes as a `size_t`.
abbrev pub size_error : ℕ
size_error = 2 ^ 64 - 1

abbrev pub add_size : ℕ → ℕ → ℕ
add_size a b = (a + b) % size_modulus

abbrev pub sub_size : ℕ → ℕ → ℕ
sub_size a b = (a + size_modulus - b) % size_modulus

abbrev pub mul_size : ℕ → ℕ → ℕ
mul_size a b = (a * b) % size_modulus

-- An atomic `int` to which a `size_t` is added or from which one is taken: the low 32 bits.
abbrev pub add_int : ℕ → ℕ → ℕ
add_int a b = (a + b % int_modulus) % int_modulus

abbrev pub sub_int : ℕ → ℕ → ℕ
sub_int a b = (a + int_modulus - b % int_modulus) % int_modulus

-- The conversion of an `int`, given by its bits, to `size_t` extends the sign.
abbrev pub int_to_size : ℕ → ℕ
int_to_size n = if ltb n int_limit then n else n + (size_modulus - int_modulus)
