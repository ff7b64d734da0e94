-- ===== src/Cmd.antt =====
-- wmi.c and wmi.h: the functions that fill in the structure of a command and send it. The bytes
-- that a caller gives are a list with their number; a number that does not fit its field is cut.
pub mod Structs
pub mod Mlme
pub mod Traffic
pub mod Sizes
pub mod Stored
mod Tests
use wigig_wil.Prelude.{
  ℕ, ◌+◌, ◌-◌, ◌*◌, ◌%◌, ◌/◌, ◌^◌, ◌==◌, ltb, Bool, true, false, not, ◌&&◌, if◌then◌else◌, Option,
  none, some, List, [], ◌∷◌, ◌++◌, take, length, get_or, replicate,
}
use wigig_wil.Word.{mk_cidxtid}
use wigig_wil.Dev.{
  Dev, Cmd, Rc, success, einval, enomem, eagain, is_success, Reply, Fw, wmi_send, wmi_call, byte,
  le16, le32, bytes16, bytes32, field, mac_at,
}

-- a byte of a command
abbrev pub u8 : ℕ → ℕ
u8 v = v % 256

-- `channel - 1` in a byte
abbrev pub channel0 : ℕ → ℕ
channel0 channel = (channel + 255) % 256

-- the reply after its header, `struct wil6210_mbox_hdr_wmi`
abbrev pub evt_byte : Reply → ℕ → ℕ
evt_byte r i = byte r.reply (8 + i)

-- a call whose reply begins with a status, 0 being success
unfoldable pub call_status : Fw → Cmd → Dev → Rc × Dev
unfolding wmi_call
call_status fw cmd d =
    let (r, d') = wmi_call fw cmd d in
    if is_success r.rc then (if evt_byte r 0 == 0 then success else einval, d') else (r.rc, d')

-- a call without reply
unfoldable pub call_plain : Fw → Cmd → Dev → Rc × Dev
unfolding wmi_call
call_plain fw cmd d = let (r, d') = wmi_call fw cmd d in (r.rc, d')
