-- ===== src/Main/Memcpy.antt =====
-- main.c: `wil_memcpy_fromio_32` and `wil_memcpy_toio_32`, which differ only in which side is the
-- card. The words of the source are a list.
use wigig_wil.Prelude.{
  ℕ, zero, suc, ◌+◌, ◌-◌, ◌/◌, ◌≡◌, refl, sym, ap, ◌∙◌, ltb, ltb→lt, ltb→le, Bool-cases,
  if◌then◌else◌, List, [], ◌∷◌, take, Bool-cases, inl, inr, arith,
}

-- the loop: `count` is the value of the loop's variable
unfoldable pub copy_words : ℕ → List ℕ → List ℕ
copy_words count [] = []
copy_words count (w ∷ ws) =
    let rest = copy_words (count - 4) ws in if ltb 4 count then w ∷ rest else []

unfoldable pub memcpy_32 : ℕ → List ℕ → List ℕ
unfolding copy_words
memcpy_32 count src = copy_words (count + 4) src

take-nil : (n : ℕ) → take {A = ℕ} n [] ≡ []
take-nil zero = refl
take-nil (suc n) = refl

copy_words-take : (ws : List ℕ) (count : ℕ) → copy_words count ws ≡ take ((count - 1) / 4) ws
unfolding copy_words
copy_words-take [] count = sym (take-nil ((count - 1) / 4))
copy_words-take (w ∷ ws) count = elim (Bool-cases (ltb 4 count)) [
  | inl more ↦
      let left : (count - 1) / 4 ≡ suc ((count - 4 - 1) / 4) = omega (arith, ltb→lt 4 count more) in
      rw more (rw left (ap (λ l. w ∷ l) (copy_words-take ws (count - 4))))
  | inr done ↦
      let none_left : (count - 1) / 4 ≡ 0 = omega (arith, ltb→le 4 count done) in
      rw done (rw none_left refl)
]

-- For every number of bytes the copy takes whole words, as many as hold these bytes, in order, and
-- no more.
pub memcpy_32-take : (count : ℕ) (src : List ℕ) → memcpy_32 count src ≡ take ((count + 3) / 4) src
unfolding memcpy_32
memcpy_32-take count src =
    let words : (count + 4 - 1) / 4 ≡ (count + 3) / 4 = omega arith in
    copy_words-take src (count + 4) ∙ rw words refl
