-- ===== src/Base/Words.antt =====
-- 32-bit words, as bit patterns.
use Prim.Native.Nat.{ℕ, ◌+◌, ◌%◌, ◌^◌}

-- `x + 1` and `x - 1` on an `int32`
abbrev pub inc32 : ℕ → ℕ
inc32 x = (x + 1) % 2 ^ 32

abbrev pub dec32 : ℕ → ℕ
dec32 x = (x + 4294967295) % 2 ^ 32
