-- ===== src/Wmi/Addr.antt =====
-- wmi.c: addresses of the firmware, and the offsets in the memory window of the card at which the
-- host finds them. `some off` is the pointer `wil->csr + off`, `none` is NULL.
use wigig_wil.Prelude.{
  ℕ, ◌+◌, ◌-◌, ◌%◌, ◌^◌, ◌==◌, ◌≡◌, ◌≤◌, ◌⊎◌, inl, inr, ltb, leb, not, ◌&&◌, if◌then◌else◌, Option,
  none, some, List, [], ◌∷◌, arith,
}
use wigig_wil.Mbox.{fw_host_off}

-- an entry of `fw_mapping`
pub record Range : Type 0 where
  pub from : ℕ
  pub to : ℕ
  pub host : ℕ

abbrev pub fw_mapping : List Range
fw_mapping =
    (record { from = 0; to = 0x040000; host = 0x8c0000 })
    ∷ (record { from = 0x800000; to = 0x808000; host = 0x900000 })
    ∷ (record { from = 0x840000; to = 0x860000; host = 0x908000 })
    ∷ (record { from = 0x880000; to = 0x88a000; host = 0x880000 })
    ∷ (record { from = 0x8c0000; to = 0x949000; host = 0x8c0000 })
    ∷ []

-- the loop of `wmi_addr_remap`, in 32 bits
unfoldable pub remap_in : List Range → ℕ → ℕ
remap_in [] x = 0
remap_in (m ∷ ms) x =
    if leb m.from x && ltb x m.to then (x + m.host + 2 ^ 32 - m.from) % 2 ^ 32 else remap_in ms x

unfoldable pub addr_remap : ℕ → ℕ
unfolding remap_in
addr_remap x = remap_in fw_mapping x

abbrev pub mem_size : ℕ
mem_size = 2097152

unfoldable pub wmi_addr : ℕ → Option ℕ
wmi_addr ptr =
    if not ((ptr % 4) == 0)
    then none
    else if ltb ptr fw_host_off
    then none
    else if ltb (mem_size - 4) (ptr - fw_host_off)
    then none
    else some (ptr - fw_host_off)

unfoldable pub wmi_buffer : ℕ → Option ℕ
wmi_buffer ptr =
    let host = addr_remap ptr in
    if not ((ptr % 4) == 0)
    then none
    else if ltb host fw_host_off
    then none
    else if ltb (mem_size - 4) (host - fw_host_off)
    then none
    else some (host - fw_host_off)

-- Whatever address the firmware gives: a pointer that comes out is aligned and leaves room for a
-- 32-bit access in the 2 MB window, for both functions.
pub wmi_buffer-wmi_addr_bounds :
    (ptr off : ℕ)
    → (wmi_buffer ptr ≡ some off) ⊎ (wmi_addr ptr ≡ some off)
    → (off % 4 ≡ 0) × (off + 4 ≤ mem_size)
unfolding wmi_buffer wmi_addr addr_remap remap_in
wmi_buffer-wmi_addr_bounds ptr off (inl h) = ground arith
wmi_buffer-wmi_addr_bounds ptr off (inr h) = ground arith

-- The translation is exactly this: an aligned address in one of five ranges has the offset at which
-- the host sees that range, and every other address is refused.
pub wmi_buffer_lem :
    (ptr : ℕ)
    → wmi_buffer ptr ≡ (
        if not ((ptr % 4) == 0)
        then none
        else if ltb ptr 0x040000
        then some (ptr + 0x040000)
        else if leb 0x800000 ptr && ltb ptr 0x808000
        then some (ptr - 0x780000)
        else if leb 0x840000 ptr && ltb ptr 0x860000
        then some (ptr - 0x7b8000)
        else if leb 0x880000 ptr && ltb ptr 0x88a000
        then some (ptr - 0x880000)
        else if leb 0x8c0000 ptr && ltb ptr 0x949000
        then some (ptr - 0x880000)
        else none)
unfolding wmi_buffer addr_remap remap_in
wmi_buffer_lem ptr = ground arith
