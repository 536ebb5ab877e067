-- ===== src/Base/Words.antt =====
-- Addresses and the unsigned machine words, with their wrap-around.
use Prim.Native.Nat.{ℕ, ◌+◌, ◌%◌, ◌^◌}

-- An address; `NULL` is 0.
abbrev pub Ptr : Type 0
Ptr = ℕ

abbrev pub null : Ptr
null = 0

-- `UINT`, 32 bits.
abbrev pub u32 : ℕ
u32 = 2 ^ 32

-- `WORD`, 16 bits.
abbrev pub u16 : ℕ
u16 = 2 ^ 16

-- `++n` on a `UINT`.
abbrev pub inc32 : ℕ → ℕ
inc32 n = (n + 1) % u32

-- `++n` on a `WORD`.
abbrev pub inc16 : ℕ → ℕ
inc16 n = (n + 1) % u16
