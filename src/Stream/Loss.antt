-- ===== src/Stream/Loss.antt =====
-- Counting the numbers of a range that a set lacks.
use rtpkit.Common.{
  ℕ, zero, suc, ◌+◌, ◌≡◌, refl, sym, subst, Bool, false, List, [], ◌∷◌, inl, inr, All, length,
  if◌then◌else◌, arith,
}
use rtpkit.Common.Int.{ℤ, pos, negsuc, ◌≤ℤ◌, ◌<ℤ◌, ◌+ℤ◌}
use rtpkit.Common.Keys.{NoDup, contains, int_eq, beq_ℤ, beq_ne, beq_cases}

-- How many of `first`, `first + 1`, up to `n` numbers, are not in `ks`.
abbrev pub missing : List ℤ → ℤ → ℕ → ℕ
missing ks first zero = 0
missing ks first (suc n) =
    let rest = missing ks first n in if contains (first +ℤ pos n) ks then rest else rest + 1

missing_none : (first : ℤ) (n : ℕ) → missing [] first n ≡ n
missing_none first zero = refl
missing_none first (suc n) = omega (arith, missing_none first n)

-- Steps along a range.
pub step_lt : (first : ℤ) (n : ℕ) → first +ℤ pos n <ℤ first +ℤ pos (suc n)
step_lt (pos m) n = ground arith
step_lt (negsuc m) n = ground arith

plus_zero : (first k : ℤ) → first ≤ℤ k → k <ℤ first +ℤ pos 0 → ⊥
plus_zero (pos m) k h g = ground arith
plus_zero (negsuc m) k h g = ground arith

before_end :
    (first k : ℤ) (n : ℕ)
    → beq_ℤ (first +ℤ pos n) k ≡ false
    → k <ℤ first +ℤ pos (suc n)
    → k <ℤ first +ℤ pos n
before_end (pos m) (pos i) n d h = ground arith
before_end (pos m) (negsuc i) n d h = ground arith
before_end (negsuc m) (pos i) n d h = ground arith
before_end (negsuc m) (negsuc i) n d h = ground arith

lt_not_le : (a b : ℤ) → a <ℤ b → b ≤ℤ a → ⊥
lt_not_le a b h g = omega arith

lt_le : (a b c : ℤ) → a <ℤ b → b ≤ℤ c → a ≤ℤ c
lt_le a b c h g = omega arith

-- A number past the range.
past_end : (first k : ℤ) (n : ℕ) → first +ℤ pos (suc n) ≤ℤ k → beq_ℤ (first +ℤ pos n) k ≡ false
past_end first k n h = beq_ne (first +ℤ pos n) k (λ e.
    lt_not_le (first +ℤ pos n) (first +ℤ pos (suc n)) (step_lt first n)
      (subst (λ (j : ℤ). first +ℤ pos (suc n) ≤ℤ j) (sym e) h))

missing_past :
    (k : ℤ) (ks : List ℤ) (first : ℤ) (n : ℕ)
    → first +ℤ pos n ≤ℤ k
    → missing (k ∷ ks) first n ≡ missing ks first n
missing_past k ks first zero h = refl
missing_past k ks first (suc n) h =
    rw (past_end first k n h, missing_past k ks first n earlier) refl
  where
    earlier : first +ℤ pos n ≤ℤ k
    earlier = lt_le (first +ℤ pos n) (first +ℤ pos (suc n)) k (step_lt first n) h

≤ℤ_of_eq : (a b : ℤ) → a ≡ b → a ≤ℤ b
≤ℤ_of_eq a b e = rw e (omega arith)

count_step :
    (b : Bool) (m n : ℕ) → m + 1 ≡ n → (if b then m else m + 1) + 1 ≡ (if b then n else n + 1)
count_step b m n h = ground arith

-- A new number in the range.
missing_more :
    (k : ℤ) (ks : List ℤ) (first : ℤ) (n : ℕ)
    → first ≤ℤ k
    → k <ℤ first +ℤ pos n
    → contains k ks ≡ false
    → missing (k ∷ ks) first n + 1 ≡ missing ks first n
missing_more k ks first zero h g new = absurd (plus_zero first k h g)
missing_more k ks first (suc n) h g new = elim (beq_cases (first +ℤ pos n) k) [
  | inl (same, e) ↦
      rw
        (
          same,
          subst (λ (j : ℤ). contains j ks ≡ false) (sym e) new,
          missing_past k ks first n (≤ℤ_of_eq (first +ℤ pos n) k e),
        )
        refl
  | inr (differ, _) ↦ rw differ (
      count_step (contains (first +ℤ pos n) ks) _ _
        (missing_more k ks first n h (before_end first k n differ g) new))
]

pub missing-length :
    (ks : List ℤ) (first : ℤ) (n : ℕ)
    → NoDup ks
    → All (λ (k : ℤ). (first ≤ℤ k) × (k <ℤ first +ℤ pos n)) ks
    → missing ks first n + length ks ≡ n
missing-length [] first n u h = omega (arith, missing_none first n)
missing-length (k ∷ ks) first n (new, u) ((low, high), h) =
    omega (arith, missing_more k ks first n low high new, missing-length ks first n u h)
