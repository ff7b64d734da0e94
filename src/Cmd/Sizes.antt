-- ===== src/Cmd/Sizes.antt =====
-- The structures of commands into which the driver copies what a caller gives (wmi.c).
use wigig_wil.Prelude.{
  ℕ, ◌+◌, ◌-◌, ◌≤◌, ◌≡◌, ◌∙◌, refl, ap, Bool, true, false, ltb, leb, ◌&&◌, some, List, ◌∷◌, length,
  take, replicate, length-append, length-replicate, length-take-le, Bool-cases, inl, inr, arith,
}
use wigig_wil.Dev.{Dev, Cmd, Rc, einval, Fw, wmi_send, field}
use wigig_wil.Cmd.Structs.{set_ssid_cmd, set_passphrase_cmd, add_cipher_key_cmd}
use wigig_wil.Cmd.Mlme.{wmi_set_ssid, wmi_set_passphrase, wmi_add_cipher_key}

-- either nothing is sent, or one command whose structure has `size` bytes, just if what is copied
-- fits
pub data Copies (fits : Bool) (size : ℕ) (fw : Fw) (d : Dev) (o : Rc × Dev) : Type 0 where
  refused : fits ≡ false → o ≡ (einval, d) → Copies fits size fw d o
  sent :
      (c : Cmd) → fits ≡ true → o ≡ wmi_send fw c d → length c.body ≡ size → Copies fits size fw d o

length-field : (n : ℕ) (src : List ℕ) → length src ≤ n → length (field n src) ≡ n
length-field n src h =
    length-append src (replicate (n - length src) 0)
    ∙ ap (λ k. length src + k) (length-replicate (n - length src) 0)
    ∙ omega arith

-- the copy of at most `n` bytes into an array of `n`
pub length-copy : (n k : ℕ) (src : List ℕ) → k ≤ n → length (field n (take k src)) ≡ n
length-copy n k src h = length-field n (take k src) (omega (arith, length-take-le k src, h))

wmi_set_ssid-Copies :
    (fw : Fw) (ssid_len : ℕ) (ssid : List ℕ) (d : Dev)
    → Copies (leb ssid_len 32) 36 fw d (wmi_set_ssid fw ssid_len ssid d)
unfolding wmi_set_ssid
wmi_set_ssid-Copies fw ssid_len ssid d = elim (Bool-cases (ltb 32 ssid_len)) [
  | inl long ↦ rw (long, wmi_set_ssid) (refused (ground (arith, long)) refl)
  | inr short ↦
      rw (short, wmi_set_ssid)
        (sent (record { id = 0x827; body = set_ssid_cmd ssid_len ssid }) (ground (arith, short))
          refl (omega (arith, length-copy 32 ssid_len ssid (ground (arith, short)))))
]

wmi_set_passphrase-Copies :
    (fw : Fw) (ssid_len : ℕ) (ssid : List ℕ) (pass_len : ℕ) (pass : List ℕ) (d : Dev)
    → Copies
        (leb ssid_len 32 && leb pass_len 64)
        98
        fw
        d
        (wmi_set_passphrase fw ssid_len ssid pass_len pass d)
unfolding wmi_set_passphrase
wmi_set_passphrase-Copies fw ssid_len ssid pass_len pass d = elim (Bool-cases (ltb 32 ssid_len)) [
  | inl long ↦ rw (long, wmi_set_passphrase) (refused (ground (arith, long)) refl)
  | inr short ↦ elim (Bool-cases (ltb 64 pass_len)) [
    | inl long ↦ rw (short, long, wmi_set_passphrase) (refused (ground (arith, long)) refl)
    | inr fits ↦
        rw (short, fits, wmi_set_passphrase)
          (sent (record { id = 0xf049; body = set_passphrase_cmd ssid_len ssid pass_len pass })
            (ground (arith, short, fits)) refl
            (length-append (field 32 (take ssid_len ssid)) _
              ∙ ap (λ k. length (field 32 (take ssid_len ssid)) + k)
                  (length-append (field 64 (take pass_len pass)) _)
              ∙ omega (
                arith,
                length-copy 32 ssid_len ssid (ground (arith, short)),
                length-copy 64 pass_len pass (ground (arith, fits)),
              )))
  ]
]

wmi_add_cipher_key-Copies :
    (fw : Fw) (key_index key_len : ℕ) (key mac : List ℕ) (d : Dev)
    → Copies (leb key_len 32) 51 fw d (wmi_add_cipher_key fw key_index mac key_len (some key) d)
unfolding wmi_add_cipher_key
wmi_add_cipher_key-Copies fw key_index key_len key mac d = elim (Bool-cases (ltb 32 key_len)) [
  | inl long ↦ rw (long, wmi_add_cipher_key) (refused (ground (arith, long)) refl)
  | inr short ↦
      rw (short, wmi_add_cipher_key)
        (sent (record { id = 0x16; body = add_cipher_key_cmd key_index key_len key mac })
          (ground (arith, short)) refl
          (omega (
            arith,
            length-append (field 32 (take key_len key)) (0 ∷ field 6 (take 6 mac)),
            length-copy 32 key_len key (ground (arith, short)),
            length-copy 6 6 mac (omega arith),
          )))
]

-- Whatever lengths and bytes a caller gives for an SSID, a passphrase or a key: the command is
-- refused with nothing sent, just if a length exceeds its array; else one command is sent, and
-- what is copied stays within its structure, which has the size of wmi.h.
pub sent_sizes :
    (fw : Fw) (d : Dev) (ssid_len pass_len key_index key_len : ℕ) (ssid pass key mac : List ℕ)
    → Copies (leb ssid_len 32) 36 fw d (wmi_set_ssid fw ssid_len ssid d)
      × Copies
          (leb ssid_len 32 && leb pass_len 64)
          98
          fw
          d
          (wmi_set_passphrase fw ssid_len ssid pass_len pass d)
      × Copies (leb key_len 32) 51 fw d (wmi_add_cipher_key fw key_index mac key_len (some key) d)
sent_sizes fw d ssid_len pass_len key_index key_len ssid pass key mac = (
  wmi_set_ssid-Copies fw ssid_len ssid d,
  wmi_set_passphrase-Copies fw ssid_len ssid pass_len pass d,
  wmi_add_cipher_key-Copies fw key_index key_len key mac d,
)
