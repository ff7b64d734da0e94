-- ===== src/Word.antt =====
-- Fixed-width helpers of wil6210.h: `WIL_GET_BITS`, `BIT`, `mk_cidxtid`, `parse_cidxtid`, and the
-- tests and updates of single bits. A register or a field is a number below its width.
mod Tests
pub mod Laws
use wigig_wil.Prelude.{ℕ, ◌+◌, ◌-◌, ◌*◌, ◌/◌, ◌%◌, ◌^◌, ◌==◌, Bool, if◌then◌else◌}

-- `(x >> b0) & ((1 << (b1 - b0 + 1)) - 1)`
unfoldable pub get_bits : ℕ → ℕ → ℕ → ℕ
get_bits x b0 b1 = (x / 2 ^ b0) % 2 ^ (b1 - b0 + 1)

-- `x & BIT(k)`, as a truth value
abbrev pub has_bit : ℕ → ℕ → Bool
has_bit x k = ((x / 2 ^ k) % 2) == 1

-- `x & ~BIT(k)`
abbrev pub drop_bit : ℕ → ℕ → ℕ
drop_bit x k = if has_bit x k then x - 2 ^ k else x

-- `x | BIT(k)`
abbrev pub with_bit : ℕ → ℕ → ℕ
with_bit x k = if has_bit x k then x else x + 2 ^ k

-- `((tid & 0xf) << 4) | (cid & 0xf)`, the bits of the two parts being apart
unfoldable pub mk_cidxtid : ℕ → ℕ → ℕ
mk_cidxtid cid tid = (tid % 16) * 16 + cid % 16

-- the two values that `parse_cidxtid` stores, CID first
unfoldable pub parse_cidxtid : ℕ → ℕ × ℕ
parse_cidxtid cidxtid = (cidxtid % 16, (cidxtid / 16) % 16)
