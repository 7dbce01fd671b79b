-- ===== src/Prelude/Words.antt =====
-- Arithmetic on Rust's unsigned machine words: `checked_*` and `saturating_sub`.
use Prim.Native.Nat.{ℕ, ◌+◌, ◌-◌, ◌*◌, ◌^◌}
use mathlib.Core.Option.{Option, none, some}
use per.Prelude.Tests.{ltb, if◌then◌else◌}

-- One more than `u64::MAX`.
abbrev pub u64_limit : ℕ
u64_limit = 2 ^ 64

abbrev pub checked_add : ℕ → ℕ → Option ℕ
checked_add a b = if ltb (a + b) u64_limit then some (a + b) else none

abbrev pub checked_sub : ℕ → ℕ → Option ℕ
checked_sub a b = if ltb a b then none else some (a - b)

abbrev pub checked_mul : ℕ → ℕ → Option ℕ
checked_mul a b = if ltb (a * b) u64_limit then some (a * b) else none

-- `-` on the native numbers stops at 0, which is what `saturating_sub` does.
abbrev pub saturating_sub : ℕ → ℕ → ℕ
saturating_sub a b = a - b
