-- ===== src/Reorder/Seq.antt =====
-- Remainders: how the slots of the reorder buffer follow the sequence numbers.
use native.Mathlib.Nat.{mod-add-mod, mod-eq_of_lt, mod-eq-sub-mod, mod-mod_of_dvd, mod-lt}
use native.Mathlib.Nat.{dvd_of_mod-eq-zero}
use wigig_wil.Prelude.{ℕ, ◌+◌, ◌-◌, ◌%◌, ◌<◌, ◌≡◌, ◌≢◌, ◌∙◌, sym, ap, dec_lt, arith}

-- Less than `n` steps forward do not come back to the same remainder.
add-mod-ne_self : (n b e : ℕ) → 0 < e → e < n → (b + e) % n ≢ b % n
add-mod-ne_self n b e pos lt =
    let r : ℕ = b % n in
    let r_lt : r < n = mod-lt b (omega arith) in
    let split : (b + e) % n ≡ (r + e) % n = sym (mod-add-mod b n e) in
    elim (dec_lt (r + e) n) [
      | yes p ↦ omega (arith, mod-eq_of_lt p)
      | no p ↦ omega (
        arith,
        mod-eq-sub-mod {n = r + e} {m = n} (omega arith),
        mod-eq_of_lt {n = r + e - n} {m = n} (omega arith),
      )
    ]

pub add-mod-ne : (n b j k : ℕ) → j < n → k < n → j ≢ k → (b + j) % n ≢ (b + k) % n
add-mod-ne n b j k hj hk ne = elim (dec_lt j k) [
  | yes p ↦ λ e.
      add-mod-ne_self n (b + j) (k - j) (omega arith) (omega arith)
        (ap (λ t. t % n) (omega arith) ∙ sym e)
  | no p ↦ λ e.
      add-mod-ne_self n (b + k) (j - k) (omega arith) (omega arith)
        (ap (λ t. t % n) (omega arith) ∙ e)
]

module _ (n : ℕ) (divides : 4096 % n ≡ 0) where
  -- A turn of the sequence numbers is a whole number of turns of the buffer.
  pub add-modulo-mod : (a : ℕ) → (a + 4096) % n ≡ a % n
  add-modulo-mod a =
      sym (mod-mod_of_dvd n (a + 4096) (dvd_of_mod-eq-zero n divides))
      ∙ ap (λ t. t % n) (omega arith)
      ∙ mod-mod_of_dvd n a (dvd_of_mod-eq-zero n divides)

  pub modulo-mod : (a : ℕ) → a % 4096 % n ≡ a % n
  modulo-mod a = mod-mod_of_dvd n a (dvd_of_mod-eq-zero n divides)

  -- Numbers that agree modulo 4096 have the same slot.
  pub mod-eq_of_modulo : (a b : ℕ) → a % 4096 ≡ b % 4096 → a % n ≡ b % n
  mod-eq_of_modulo a b e = sym (modulo-mod a) ∙ ap (λ t. t % n) e ∙ modulo-mod b
