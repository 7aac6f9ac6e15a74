-- ===== src/SignedHeader/Marks.antt =====
-- Marking a fuse sets its bit and no other.
use platform_external_nos_ho.Base.{
  ℕ, zero, suc, ◌/◌, ◌%◌, ◌^◌, ◌<◌, ◌≡◌, ◌≢◌, refl, ◌∙◌, sym, ap, List, [], ◌∷◌, bit_or, bit_and,
  get_or, length, arith, Bool-cases, inl, inr, ◌==◌, ==_iff,
}
use native.Mathlib.Nat.{pow-suc}
use platform_external_nos_ho.Base.Bits.{bit_or_digit, bit_or-zero, bit_and_mask}
use platform_external_nos_ho.SignedHeader.{SignedHeader, set_word, mark, mark_fuse, mark_info}

-- The bit of a word at an index.
pub bit_at : ℕ → ℕ → ℕ
bit_at zero word = word % 2
bit_at (suc j) word = bit_at j (word / 2)

bit_or_even :
    (w k : ℕ)
    → (bit_or w (2 ^ suc k) % 2 ≡ w % 2) × (bit_or w (2 ^ suc k) / 2 ≡ bit_or (w / 2) (2 ^ k))
bit_or_even w k =
    let half : 2 ^ suc k / 2 ≡ 2 ^ k = omega (arith, pow-suc 2 k) in
    let even : 2 ^ suc k % 2 ≡ 0 = omega (arith, pow-suc 2 k) in
    let step = bit_or_digit w (2 ^ suc k) in
    let high : bit_or (w / 2) (2 ^ suc k / 2) ≡ bit_or (w / 2) (2 ^ k) = ap (bit_or (w / 2)) half in
    (omega (arith, step, even), omega (arith, step, even, high))

bit_or_one : (w : ℕ) → (bit_or w 1 % 2 ≡ 1) × (bit_or w 1 / 2 ≡ w / 2)
bit_or_one w =
    let step = bit_or_digit w 1 in
    let high = bit_or-zero (w / 2) in (omega (arith, step), omega (arith, step, high))

-- Setting bit `k` sets it,
set_bit_same : (k w : ℕ) → bit_at k (bit_or w (2 ^ k)) ≡ 1
unfolding bit_at
set_bit_same zero w = (bit_or_one w).0
set_bit_same (suc k) w = ap (bit_at k) (bit_or_even w k).1 ∙ set_bit_same k (w / 2)

-- and no other bit.
set_bit_other : (k j w : ℕ) → j ≢ k → bit_at j (bit_or w (2 ^ k)) ≡ bit_at j w
unfolding bit_at
set_bit_other zero zero w ne = absurd (ne refl)
set_bit_other zero (suc j) w ne = ap (bit_at j) (bit_or_one w).1
set_bit_other (suc k) zero w ne = (bit_or_even w k).0
set_bit_other (suc k) (suc j) w ne =
    ap (bit_at j) (bit_or_even w k).1 ∙ set_bit_other k j (w / 2) (λ e. ne (omega arith))

set_word_same :
    (map : List ℕ) (i word : ℕ) → i < length map → get_or (set_word map i word) i 0 ≡ word
unfolding set_word
set_word_same [] i word h = absurd (omega arith)
set_word_same (x ∷ xs) zero word h = refl
set_word_same (x ∷ xs) (suc i) word h = set_word_same xs i word (omega arith)

set_word_other :
    (map : List ℕ) (i j word : ℕ) → j ≢ i → get_or (set_word map i word) j 0 ≡ get_or map j 0
unfolding set_word
set_word_other [] i j word ne = refl
set_word_other (x ∷ xs) zero zero word ne = absurd (ne refl)
set_word_other (x ∷ xs) zero (suc j) word ne = refl
set_word_other (x ∷ xs) (suc i) zero word ne = refl
set_word_other (x ∷ xs) (suc i) (suc j) word ne = set_word_other xs i j word (λ e. ne (omega arith))

-- Whether number `i` is marked in a map, as 1 or 0.
abbrev pub marked : List ℕ → ℕ → ℕ
marked map i = bit_at (i % 32) (get_or map (i / 32) 0)

low_bits : (n : ℕ) → bit_and n 31 ≡ n % 32
low_bits n = bit_and_mask 5 n

mark_same : (map : List ℕ) (n : ℕ) → n / 32 < length map → marked (mark map n) n ≡ 1
unfolding mark
mark_same map n h =
    ap (bit_at (n % 32)) (set_word_same map (n / 32) _ h)
    ∙ ap (λ k. bit_at (n % 32) (bit_or (get_or map (n / 32) 0) (2 ^ k))) (low_bits n)
    ∙ set_bit_same (n % 32) (get_or map (n / 32) 0)

mark_other :
    (map : List ℕ) (n i : ℕ) → n / 32 < length map → i ≢ n → marked (mark map n) i ≡ marked map i
unfolding mark
mark_other map n i h ne = elim (Bool-cases (i / 32 == n / 32)) [
  | inl same ↦
      let word : i / 32 ≡ n / 32 = (==_iff (i / 32) (n / 32)).0 same in
      let w = get_or map (n / 32) 0 in
      ap (λ k. bit_at (i % 32) (get_or (set_word map (n / 32) (bit_or w (2 ^ bit_and n 31))) k 0))
        word
      ∙ ap (bit_at (i % 32)) (set_word_same map (n / 32) _ h)
      ∙ ap (λ k. bit_at (i % 32) (bit_or w (2 ^ k))) (low_bits n)
      ∙ set_bit_other (n % 32) (i % 32) w (λ e. ne (omega arith))
      ∙ ap (λ k. bit_at (i % 32) (get_or map k 0)) (sym word)
  | inr other ↦
      ap (bit_at (i % 32))
        (set_word_other map (n / 32) (i / 32) _ (λ e. absurd (ground (arith, other, e))))
]

-- On a header with four words in each map and for a number below 128: marking a fuse or an info word
-- sets its bit in the right map, and leaves every other bit of it and the other map as they were.
pub marks_one :
    (h : SignedHeader) (n i : ℕ)
    → length h.fusemap ≡ 4
    → length h.infomap ≡ 4
    → n < 128
    → i ≢ n
    → (marked (mark_fuse h n).fusemap n ≡ 1)
      × (marked (mark_fuse h n).fusemap i ≡ marked h.fusemap i)
      × ((mark_fuse h n).infomap ≡ h.infomap)
      × (marked (mark_info h n).infomap n ≡ 1)
      × (marked (mark_info h n).infomap i ≡ marked h.infomap i)
      × ((mark_info h n).fusemap ≡ h.fusemap)
unfolding mark_fuse mark_info
marks_one h n i hf hi hn ne = (
  mark_same h.fusemap n (omega arith),
  mark_other h.fusemap n i (omega arith) ne,
  refl,
  mark_same h.infomap n (omega arith),
  mark_other h.infomap n i (omega arith) ne,
  refl,
)
