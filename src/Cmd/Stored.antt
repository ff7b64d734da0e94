-- ===== src/Cmd/Stored.antt =====
-- A firmware that keeps what it is told: reading back gives what was set (wmi.c).
use mathlib.Core.Path.{subst}
use wigig_wil.Prelude.{
  ℕ, ◌+◌, ◌-◌, ◌≤◌, ◌≡◌, ◌∙◌, refl, ap, List, [], ◌∷◌, ◌++◌, length, take, drop, some, get_or,
  get_or-append, drop-append, take-append, take-take, length-take, le→ltb, arith,
}
use wigig_wil.Dev.{Dev, Cmd, Fw, success, wmi_send, wmi_call, le32, field}
use wigig_wil.Cmd.Structs.{set_ssid_cmd, set_pcp_channel_cmd}
use wigig_wil.Cmd.{channel0}
use wigig_wil.Cmd.Mlme.{wmi_set_ssid, wmi_get_ssid, wmi_set_channel, wmi_get_channel}

-- the card answers a query after a command with the structure of that command
abbrev pub Keeps : Fw → Dev → Cmd → ℕ → List ℕ → Type 0
Keeps fw d told query header =
    fw ((record { id = query; body = [] }) ∷ told ∷ d.sent)
    ≡ record { rc = success; reply = header ++ told.body }

byte-after :
    (header body : List ℕ) (n : ℕ)
    → length header ≡ 8
    → get_or (header ++ body) (8 + n) 0 ≡ get_or body n 0
byte-after header body n e =
    subst (λ k. get_or (header ++ body) (k + n) 0 ≡ get_or body n 0) e
      (get_or-append header body n 0)

le32-after : (header body : List ℕ) → length header ≡ 8 → le32 (header ++ body) 8 ≡ le32 body 0
le32-after header body e = omega (
  arith,
  byte-after header body 0 e,
  byte-after header body 1 e,
  byte-after header body 2 e,
  byte-after header body 3 e,
)

drop-after : (header body : List ℕ) → length header ≡ 8 → drop 12 (header ++ body) ≡ drop 4 body
drop-after header body e =
    subst (λ k. drop (k + 4) (header ++ body) ≡ drop 4 body) e (drop-append header body 4)

-- the SSID as it comes back
ssid_back :
    (n : ℕ) (ssid : List ℕ) → n ≤ length ssid → take n (field 32 (take n ssid)) ≡ take n ssid
ssid_back n ssid h =
    take-append n (take n ssid) _ (omega (arith, length-take n ssid h)) ∙ take-take n ssid

module _ (fw : Fw) (d : Dev) (header : List ℕ) (whole : length header ≡ 8) where
  ssid_kept :
      (n : ℕ) (ssid : List ℕ)
      → n ≤ 32
      → n ≤ length ssid
      → Keeps fw d (record { id = 0x827; body = set_ssid_cmd n ssid }) 0x828 header
      → let d1 = (wmi_set_ssid fw n ssid d).1 in
        ((wmi_get_ssid fw d1).0 ≡ success) × ((wmi_get_ssid fw d1).2 ≡ some (take n ssid))
  unfolding wmi_get_ssid wmi_set_ssid wmi_send wmi_call
  ssid_kept n ssid small given kept =
      let body = set_ssid_cmd n ssid in
      let len : le32 (header ++ body) 8 ≡ n = le32-after header body whole ∙ omega (arith, small) in
      let rest : take n (drop 12 (header ++ body)) ≡ take n ssid =
        ap (take n) (drop-after header body whole) ∙ ssid_back n ssid given in
      rw (le→ltb 32 n small) (rw kept (rw len (rw (le→ltb 32 n small) (refl, ap some rest))))

  channel_kept :
      (channel : ℕ)
      → 1 ≤ channel
      → channel ≤ 4
      → Keeps fw d
          (record { id = 0x829; body = set_pcp_channel_cmd (channel0 channel) })
          0x82a
          header
      → let d1 = (wmi_set_channel fw channel d).1 in
        ((wmi_get_channel fw d1).0 ≡ success) × ((wmi_get_channel fw d1).2 ≡ some channel)
  unfolding wmi_get_channel wmi_set_channel wmi_send wmi_call
  channel_kept channel lo hi kept =
      let at : get_or (header ++ set_pcp_channel_cmd (channel0 channel)) 8 0 ≡ channel - 1 =
        byte-after header (set_pcp_channel_cmd (channel0 channel)) 0 whole
        ∙ omega (arith, lo, hi) in
      rw kept (rw at ground (arith, lo, hi))

-- From a firmware that keeps what it is told: after an SSID of at most 32 bytes has been set,
-- reading it gives these bytes; after a channel from 1 to 4 has been set, reading gives it back.
pub wmi_get_ssid-wmi_set_ssid :
    (fw : Fw) (d : Dev) (n channel : ℕ) (ssid header : List ℕ)
    → n ≤ 32
    → n ≤ length ssid
    → 1 ≤ channel
    → channel ≤ 4
    → length header ≡ 8
    → Keeps fw d (record { id = 0x827; body = set_ssid_cmd n ssid }) 0x828 header
    → Keeps fw d (record { id = 0x829; body = set_pcp_channel_cmd (channel0 channel) }) 0x82a header
    → let d1 = (wmi_set_ssid fw n ssid d).1 in
      let d2 = (wmi_set_channel fw channel d).1 in
      (((wmi_get_ssid fw d1).0 ≡ success) × ((wmi_get_ssid fw d1).2 ≡ some (take n ssid)))
      × (((wmi_get_channel fw d2).0 ≡ success) × ((wmi_get_channel fw d2).2 ≡ some channel))
wmi_get_ssid-wmi_set_ssid fw d n channel ssid header small given lo hi whole kept kept_channel = (
  ssid_kept fw d header whole n ssid small given kept,
  channel_kept fw d header whole channel lo hi kept_channel,
)
