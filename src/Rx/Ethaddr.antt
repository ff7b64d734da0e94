-- ===== src/Rx/Ethaddr.antt =====
-- txrx.c: `wil_swap_u16` and `wil_swap_ethaddr`. The words of a frame are numbered from its
-- Ethernet header on: the destination is in words 0 to 2, the source in words 3 to 5.
use Prim.Native.Nat.{bit_xor, digits, differ, bit_xor-bitwise}
use wigig_wil.Prelude.{
  ◌⊎◌, inl, inr, eq-cases, ℕ, zero, suc, ◌+◌, ◌*◌, ◌/◌, ◌%◌, ◌≤◌, ◌<◌, ◌≡◌, ◌∙◌, refl, ap, List,
  ◌∷◌, get_or, set, arith,
}

-- three steps of exclusive or, in place
unfoldable pub swap_u16 : ℕ → ℕ → ℕ × ℕ
swap_u16 a b = let a1 = bit_xor a b in let b1 = bit_xor b a1 in (bit_xor a1 b1, b1)

-- swap the words `i` and `j`
unfoldable pub swap_words : ℕ → ℕ → List ℕ → List ℕ
unfolding swap_u16
swap_words i j ws = let (a, b) = swap_u16 (get_or ws i 0) (get_or ws j 0) in set (set ws i a) j b

unfoldable pub swap_ethaddr : List ℕ → List ℕ
unfolding swap_words
swap_ethaddr ws = swap_words 5 2 (swap_words 4 1 (swap_words 3 0 ws))

abbrev xor_digits : ℕ → ℕ → ℕ → ℕ
xor_digits n a b = digits (λ b. b) differ n a b

xor_digits_fuel : (n m a b : ℕ) → a ≤ n → a ≤ m → xor_digits n a b ≡ xor_digits m a b
xor_digits_fuel zero zero a b p q = refl
xor_digits_fuel zero (suc m) zero b p q = refl
xor_digits_fuel zero (suc m) (suc a) b p q = absurd (omega arith)
xor_digits_fuel (suc n) zero zero b p q = refl
xor_digits_fuel (suc n) zero (suc a) b p q = absurd (omega arith)
xor_digits_fuel (suc n) (suc m) zero b p q = refl
xor_digits_fuel (suc n) (suc m) (suc a) b p q =
    omega (arith, xor_digits_fuel n m (suc a / 2) (b / 2) (omega arith) (omega arith))

zero-bit_xor : (b : ℕ) → bit_xor 0 b ≡ b
zero-bit_xor b = bit_xor-bitwise 0 b

-- The lowest digit of an exclusive or, and the rest.
bit_xor_step : (a b : ℕ) → bit_xor a b ≡ bit_xor (a / 2) (b / 2) * 2 + differ (a % 2) (b % 2)
bit_xor_step zero b = omega (arith, zero-bit_xor b, zero-bit_xor (b / 2))
bit_xor_step (suc a) b = omega (
  arith,
  bit_xor-bitwise (suc a) b,
  bit_xor-bitwise (suc a / 2) (b / 2),
  xor_digits_fuel a (suc a / 2) (suc a / 2) (b / 2) (omega arith) (omega arith),
)

digit-cases : (p : ℕ) → p < 2 → (p ≡ 0) ⊎ (p ≡ 1)
digit-cases p lt = elim (eq-cases p 0) [ inl e ↦ inl e | inr ne ↦ inr (omega arith) ]

-- Of two digits and their exclusive or, any two give the third.
differ_lem :
    (p q : ℕ)
    → p < 2
    → q < 2
    → (differ p q < 2) × (differ q (differ p q) ≡ p) × (differ (differ p q) p ≡ q)
differ_lem p q hp hq = elim (digit-cases p hp) [
  | inl e ↦ elim (digit-cases q hq) [
    | inl f ↦ rw (e, f) (omega arith, refl, refl)
    | inr f ↦ rw (e, f) (omega arith, refl, refl)
  ]
  | inr e ↦ elim (digit-cases q hq) [
    | inl f ↦ rw (e, f) (omega arith, refl, refl)
    | inr f ↦ rw (e, f) (omega arith, refl, refl)
  ]
]

-- The same for numbers.
bit_xor_cancel :
    (n a b : ℕ) → a ≤ n → b ≤ n → (bit_xor b (bit_xor a b) ≡ a) × (bit_xor (bit_xor a b) a ≡ b)
bit_xor_cancel zero a b ha hb =
    let ea : a ≡ 0 = omega arith in let eb : b ≡ 0 = omega arith in rw (ea, eb) (refl, refl)
bit_xor_cancel (suc n) a b ha hb =
    let x : ℕ = bit_xor a b in
    let d = differ_lem (a % 2) (b % 2) (omega arith) (omega arith) in
    let h = bit_xor_cancel n (a / 2) (b / 2) (omega arith) (omega arith) in
    let half : x / 2 ≡ bit_xor (a / 2) (b / 2) = omega (arith, bit_xor_step a b, d.0) in
    let low : x % 2 ≡ differ (a % 2) (b % 2) = omega (arith, bit_xor_step a b, d.0) in
    let s1 : bit_xor b x
        ≡ bit_xor (b / 2) (bit_xor (a / 2) (b / 2)) * 2 + differ (b % 2) (differ (a % 2) (b % 2)) =
      bit_xor_step b x
      ∙ ap (λ t. bit_xor (b / 2) t * 2 + differ (b % 2) (x % 2)) half
      ∙ ap (λ t. bit_xor (b / 2) (bit_xor (a / 2) (b / 2)) * 2 + differ (b % 2) t) low in
    let s2 : bit_xor x a
        ≡ bit_xor (bit_xor (a / 2) (b / 2)) (a / 2) * 2 + differ (differ (a % 2) (b % 2)) (a % 2) =
      bit_xor_step x a
      ∙ ap (λ t. bit_xor t (a / 2) * 2 + differ (x % 2) (a % 2)) half
      ∙ ap (λ t. bit_xor (bit_xor (a / 2) (b / 2)) (a / 2) * 2 + differ t (a % 2)) low in
    (omega (arith, s1, h.0, d.1), omega (arith, s2, h.1, d.2))

-- The three steps exchange two 16-bit words.
pub swap_u16_lem : (a b : ℕ) → swap_u16 a b ≡ (b, a)
unfolding swap_u16
swap_u16_lem a b =
    let h = bit_xor_cancel (a + b) a b (omega arith) (omega arith) in rw h.0 (rw h.1 refl)

swap_words_lem :
    (i j : ℕ) (ws : List ℕ) → swap_words i j ws ≡ set (set ws i (get_or ws j 0)) j (get_or ws i 0)
unfolding swap_words
swap_words_lem i j ws =
    ap (λ p. set (set ws i p.0) j p.1) (swap_u16_lem (get_or ws i 0) (get_or ws j 0))

-- On a frame that has its Ethernet header, the driver's three exchanges of words swap the two
-- addresses and leave the rest.
pub swap_ethaddr_lem :
    (d0 d1 d2 s0 s1 s2 : ℕ) (rest : List ℕ)
    → swap_ethaddr (d0 ∷ d1 ∷ d2 ∷ s0 ∷ s1 ∷ s2 ∷ rest) ≡ s0 ∷ s1 ∷ s2 ∷ d0 ∷ d1 ∷ d2 ∷ rest
unfolding swap_ethaddr
swap_ethaddr_lem d0 d1 d2 s0 s1 s2 rest =
    ap (λ ws. swap_words 5 2 (swap_words 4 1 ws))
      (swap_words_lem 3 0 (d0 ∷ d1 ∷ d2 ∷ s0 ∷ s1 ∷ s2 ∷ rest))
    ∙ ap (swap_words 5 2) (swap_words_lem 4 1 (s0 ∷ d1 ∷ d2 ∷ d0 ∷ s1 ∷ s2 ∷ rest))
    ∙ swap_words_lem 5 2 (s0 ∷ s1 ∷ d2 ∷ d0 ∷ d1 ∷ s2 ∷ rest)
