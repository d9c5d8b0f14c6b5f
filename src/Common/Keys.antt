-- ===== src/Common/Keys.antt =====
-- Python's sets and dicts: equality of keys as an interface, a set as a list without repetition, and a
-- dict as an association list in insertion order.
use Prim.Native.Nat.{ℕ}
use mathlib.Core.Path.{◌≡◌, refl, ap, sym, ◌∙◌}
use mathlib.Core.Logic.{◌↔◌, ◌≢◌, ◌⊎◌, inl, inr}
use mathlib.Core.Bool.{Bool, true, false, ◌||◌}
use mathlib.Core.Option.{Option, none, some}
use mathlib.Core.List.{List, [], ◌∷◌, map}
use native.Mathlib.Omega.{arith}
use rtpkit.Common.Tests.{◌==◌, ==_iff, if◌then◌else◌, Bool-cases}
use rtpkit.Common.Int.{ℤ, pos, negsuc, pos_part, neg_part}

pub record Eq {ℓ} (A : Type ℓ) : Type ℓ where
  pub beq : A → A → Bool
  pub beq_iff : (a b : A) → (beq a b ≡ true) ↔ (a ≡ b)

instance abbrev pub nat_eq : Eq ℕ
nat_eq = record { beq = ◌==◌; beq_iff = ==_iff }

abbrev pub beq_ℤ : ℤ → ℤ → Bool
beq_ℤ (pos m) (pos n) = m == n
beq_ℤ (negsuc m) (negsuc n) = m == n
beq_ℤ _ _ = false

pub beq_ℤ-iff : (a b : ℤ) → (beq_ℤ a b ≡ true) ↔ (a ≡ b)
beq_ℤ-iff (pos m) (pos n) = (λ h. ap pos ((==_iff m n).0 h), λ e. (==_iff m n).1 (ap pos_part e))
beq_ℤ-iff (pos m) (negsuc n) = (λ h. cc h, λ e. cc e)
beq_ℤ-iff (negsuc m) (pos n) = (λ h. cc h, λ e. cc e)
beq_ℤ-iff (negsuc m) (negsuc n) =
    (λ h. ap negsuc ((==_iff m n).0 h), λ e. (==_iff m n).1 (omega (arith, ap neg_part e)))

instance abbrev pub int_eq : Eq ℤ
int_eq = record { beq = beq_ℤ; beq_iff = beq_ℤ-iff }

module _ {ℓ} {A : Type ℓ} ⦃e : Eq A⦄ where
  pub beq_refl : (a : A) → e.beq a a ≡ true
  beq_refl a = (e.beq_iff a a).1 refl

  pub beq_ne : (a b : A) → a ≢ b → e.beq a b ≡ false
  beq_ne a b h = elim (Bool-cases (e.beq a b)) [
    | inl same ↦ absurd (h ((e.beq_iff a b).0 same))
    | inr differ ↦ differ
  ]

  pub beq_cases : (a b : A) → ((e.beq a b ≡ true) × (a ≡ b)) ⊎ ((e.beq a b ≡ false) × (a ≢ b))
  beq_cases a b = elim (Bool-cases (e.beq a b)) [
    | inl same ↦ inl (same, (e.beq_iff a b).0 same)
    | inr differ ↦ inr (differ, λ q. cc (differ, (e.beq_iff a b).1 q))
  ]

  -- `a in s`.
  abbrev pub contains : A → List A → Bool
  contains a [] = false
  contains a (x ∷ xs) = e.beq a x || contains a xs

  -- `s.add(a)`.
  abbrev pub add : A → List A → List A
  add a s = if contains a s then s else a ∷ s

  abbrev pub NoDup : List A → Type 0
  NoDup [] = Unit
  NoDup (x ∷ xs) = (contains x xs ≡ false) × NoDup xs

  pub add-NoDup : (a : A) (s : List A) → NoDup s → NoDup (add a s)
  add-NoDup a s h = elim (Bool-cases (contains a s)) [
    | inl old ↦ rw old h
    | inr new ↦ rw new (new, h)
  ]

module _ {ℓ κ} {K : Type ℓ} {V : Type κ} ⦃e : Eq K⦄ where
  -- `d.get(k)`.
  abbrev pub lookup : K → List (K × V) → Option V
  lookup k [] = none
  lookup k ((j, v) ∷ d) = if e.beq k j then some v else lookup k d

  -- `d[k] = v`: a key that is there keeps its place.
  abbrev pub insert : K → V → List (K × V) → List (K × V)
  insert k v [] = (k, v) ∷ []
  insert k v ((j, w) ∷ d) = if e.beq k j then (j, v) ∷ d else (j, w) ∷ insert k v d

  abbrev pub keys : List (K × V) → List K
  keys d = map (λ (b : K × V). b.0) d

  pub lookup-insert_self : (k : K) (v : V) (d : List (K × V)) → lookup k (insert k v d) ≡ some v
  lookup-insert_self k v [] = rw (beq_refl k) refl
  lookup-insert_self k v ((j, w) ∷ d) = elim (Bool-cases (e.beq k j)) [
    | inl same ↦ rw (same, same) refl
    | inr differ ↦ rw (differ, differ) (lookup-insert_self k v d)
  ]

  pub lookup-insert_ne :
      (i k : K) (v : V) (d : List (K × V)) → i ≢ k → lookup i (insert k v d) ≡ lookup i d
  lookup-insert_ne i k v [] h = rw (beq_ne i k h) refl
  lookup-insert_ne i k v ((j, w) ∷ d) h = elim (beq_cases k j) [
    | inl (same, q) ↦ rw (same, beq_ne i j (λ p. h (p ∙ sym q))) refl
    | inr (differ, q) ↦
        rw differ (ap (λ r. if e.beq i j then some w else r) (lookup-insert_ne i k v d h))
  ]
