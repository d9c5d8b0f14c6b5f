-- ===== src/Common/Dicts.antt =====
-- What adding a new key does to a dict, which then stands at its end, and to sets.
use mathlib.Core.Path.{◌≡◌, refl, ap, sym}
use mathlib.Core.Logic.{◌≢◌, inl, inr}
use mathlib.Core.Bool.{Bool, true, false, ◌||◌}
use mathlib.Core.Option.{some}
use mathlib.Core.List.{List, [], ◌∷◌, ◌++◌}
use native.Mathlib.Omega.{arith}
use rtpkit.Common.Tests.{if◌then◌else◌, Bool-cases}
use rtpkit.Common.Lists.{All}
use rtpkit.Common.Keys.{Eq, beq_refl, beq_ne, beq_cases, contains, NoDup, lookup, insert, keys}

pub or_false : (a b : Bool) → (a || b) ≡ false → (a ≡ false) × (b ≡ false)
or_false true b h = absurd (cc h)
or_false false b h = (refl, h)

pub All-append {ℓ κ} :
    {A : Type ℓ} (P : A → Type κ) (xs ys : List A) → All P xs → All P ys → All P (xs ++ ys)
All-append P [] ys h k = k
All-append P (x ∷ xs) ys (p, h) k = (p, All-append P xs ys h k)

pub All-mono {ℓ κ κ'} :
    {A : Type ℓ} (P : A → Type κ) (Q : A → Type κ') (xs : List A)
    → ((a : A) → P a → Q a)
    → All P xs
    → All Q xs
All-mono P Q [] f h = tt
All-mono P Q (x ∷ xs) f (p, h) = (f x p, All-mono P Q xs f h)

module _ {ℓ} {A : Type ℓ} ⦃e : Eq A⦄ where
  pub contains-append :
      (a : A) (xs ys : List A) → contains a (xs ++ ys) ≡ (contains a xs || contains a ys)
  contains-append a [] ys = refl
  contains-append a (x ∷ xs) ys = ground (arith, contains-append a xs ys)

  pub contains-append_left :
      (a : A) (xs ys : List A) → contains a xs ≡ true → contains a (xs ++ ys) ≡ true
  contains-append_left a xs ys h = rw (contains-append a xs ys, h) refl

  pub contains-append_last : (a : A) (xs : List A) → contains a (xs ++ (a ∷ [])) ≡ true
  contains-append_last a [] = rw (beq_refl a) refl
  contains-append_last a (x ∷ xs) = rw (contains-append_last a xs) (ground arith)

  pub contains-All {κ} :
      (P : A → Type κ) (a : A) (xs : List A) → contains a xs ≡ true → All P xs → P a
  contains-All P a [] h k = absurd (cc h)
  contains-All P a (x ∷ xs) h (p, k) = elim (beq_cases a x) [
    | inl (same, q) ↦ rw q p
    | inr (differ, q) ↦ contains-All P a xs (rw differ at h) k
  ]

  pub NoDup-append_one :
      (a : A) (xs : List A) → contains a xs ≡ false → NoDup xs → NoDup (xs ++ (a ∷ []))
  NoDup-append_one a [] h k = (refl, tt)
  NoDup-append_one a (x ∷ xs) h (new, k) =
      let (differ, fresh) = or_false (e.beq a x) (contains a xs) h in
      let x_ne : x ≢ a = λ q. cc (differ, (e.beq_iff a x).1 (sym q)) in
      (rw (contains-append x xs (a ∷ []), new, beq_ne x a x_ne) refl, NoDup-append_one a xs fresh k)

module _ {ℓ κ} {K : Type ℓ} {V : Type κ} ⦃e : Eq K⦄ where
  pub insert_new :
      (k : K) (v : V) (d : List (K × V))
      → contains k (keys d) ≡ false
      → insert k v d ≡ d ++ ((k, v) ∷ [])
  insert_new k v [] h = refl
  insert_new k v ((j, w) ∷ d) h =
      let (differ, fresh) = or_false (e.beq k j) (contains k (keys d)) h in
      rw differ (ap (◌∷◌ (j, w)) (insert_new k v d fresh))

  pub keys-append : (d d' : List (K × V)) → keys (d ++ d') ≡ keys d ++ keys d'
  keys-append [] d' = refl
  keys-append (b ∷ d) d' = ap (◌∷◌ b.0) (keys-append d d')

  pub lookup-contains :
      (k : K) (d : List (K × V)) → contains k (keys d) ≡ true → (v : V) × (lookup k d ≡ some v)
  lookup-contains k [] h = absurd (cc h)
  lookup-contains k ((j, w) ∷ d) h = elim (Bool-cases (e.beq k j)) [
    | inl same ↦ (w, rw same refl)
    | inr differ ↦ rw differ (lookup-contains k d (rw differ at h))
  ]

  -- A key that is there keeps its place.
  pub keys-insert :
      (k : K) (v : V) (d : List (K × V))
      → keys (insert k v d) ≡ (if contains k (keys d) then keys d else keys d ++ (k ∷ []))
  keys-insert k v [] = refl
  keys-insert k v ((j, w) ∷ d) = elim (Bool-cases (e.beq k j)) [
    | inl same ↦ rw same refl
    | inr differ ↦ rw (differ, keys-insert k v d) (if_cons (contains k (keys d)) j _ _)
  ]
    where
      if_cons :
          (b : Bool) (i : K) (xs ys : List K)
          → i ∷ (if b then xs else ys) ≡ (if b then i ∷ xs else i ∷ ys)
      if_cons true i xs ys = refl
      if_cons false i xs ys = refl
