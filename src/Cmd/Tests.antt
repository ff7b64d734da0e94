-- ===== src/Cmd/Tests.antt =====
-- A card that keeps what it is told.
use wigig_wil.Prelude.{ℕ, ◌≡◌, refl, true, some, List, [], ◌∷◌, ◌++◌, replicate, take, arith}
use wigig_wil.Dev.{Fw, success}
use wigig_wil.Dev.Tests.{device}
use wigig_wil.Cmd.Mlme.{
  wmi_set_ssid, wmi_get_ssid, wmi_set_channel, wmi_get_channel, wmi_set_passphrase,
  wmi_add_cipher_key,
}
use wigig_wil.Cmd.Sizes.{Copies, sent_sizes}
use wigig_wil.Cmd.Stored.{wmi_get_ssid-wmi_set_ssid}

abbrev header : List ℕ
header = replicate 8 0

abbrev keeper : Fw
keeper (query ∷ told ∷ cmds) = record { rc = success; reply = header ++ told.body }
keeper _ = record { rc = success; reply = [] }

abbrev name : List ℕ
name = 119 ∷ 105 ∷ 108 ∷ []

sent_sizes_example :
    Copies true 36 keeper device (wmi_set_ssid keeper 3 name device)
    × Copies true 98 keeper device (wmi_set_passphrase keeper 3 name 3 name device)
    × Copies true 51 keeper device
        (wmi_add_cipher_key keeper 0 (replicate 6 1) 3 (some name) device)
sent_sizes_example = sent_sizes keeper device 3 3 0 3 name name name (replicate 6 1)

wmi_get_ssid-wmi_set_ssid_example :
    let d1 = (wmi_set_ssid keeper 3 name device).1 in
    let d2 = (wmi_set_channel keeper 2 device).1 in
    (((wmi_get_ssid keeper d1).0 ≡ success) × ((wmi_get_ssid keeper d1).2 ≡ some (take 3 name)))
    × (((wmi_get_channel keeper d2).0 ≡ success) × ((wmi_get_channel keeper d2).2 ≡ some 2))
wmi_get_ssid-wmi_set_ssid_example =
    wmi_get_ssid-wmi_set_ssid keeper device 3 2 name header (omega arith) (omega arith)
      (omega arith) (omega arith) refl refl refl
