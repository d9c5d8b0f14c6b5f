-- ===== src/Outcome/Laws.antt =====
-- Reasoning about outcomes: what a call may raise and return, inversion of a bind, and the agreement
-- of the strict and the lenient mode.
use rtpkit.Common.{Bool, true, false, if◌then◌else◌, List, [], ◌∷◌, ◌≡◌, ◌⊎◌, inl, inr, refl}
use rtpkit.Errors.{Exception}
use rtpkit.Outcome.{Outcome, Warning, ok, err, logged, ◌>>=◌, raise_if}

pub Outcome-cases {ℓ} :
    {A : Type ℓ} (m : Outcome A)
    → ((a : A) × (ws : List Warning) × (m ≡ ok a ws)) ⊎ ((e : Exception) × (m ≡ err e))
Outcome-cases (ok a ws) = inl (a, ws, refl)
Outcome-cases (err e) = inr (e, refl)

-- What is raised satisfies `P`, and what is returned satisfies `Q`.
abbrev pub Ensures {ℓ} : {A : Type ℓ} → (Exception → Type 0) → (A → Type 0) → Outcome A → Type 0
Ensures P Q (ok a ws) = Q a
Ensures P Q (err e) = P e

pub Ensures-logged {ℓ} :
    {A : Type ℓ} (P : Exception → Type 0) (Q : A → Type 0) (ws : List Warning) (m : Outcome A)
    → Ensures P Q m
    → Ensures P Q (logged ws m)
Ensures-logged P Q ws (ok a vs) h = h
Ensures-logged P Q ws (err e) h = h

pub Ensures-bind {ℓ κ} :
    {A : Type ℓ} {B : Type κ} (P : Exception → Type 0) (Q : A → Type 0) (R : B → Type 0)
    (m : Outcome A) (f : A → Outcome B)
    → Ensures P Q m
    → ((a : A) → Q a → Ensures P R (f a))
    → Ensures P R (m >>= f)
Ensures-bind P Q R (ok a []) f h k = k a h
Ensures-bind P Q R (ok a (w ∷ ws)) f h k = Ensures-logged P R (w ∷ ws) (f a) (k a h)
Ensures-bind P Q R (err e) f h k = h

pub Ensures-mono {ℓ} :
    {A : Type ℓ} (P P' : Exception → Type 0) (Q R : A → Type 0) (m : Outcome A)
    → Ensures P Q m
    → ((e : Exception) → P e → P' e)
    → ((a : A) → Q a → R a)
    → Ensures P' R m
Ensures-mono P P' Q R (ok a ws) h k l = l a h
Ensures-mono P P' Q R (err e) h k l = k e h

pub Ensures-ok {ℓ} :
    {A : Type ℓ} (P : Exception → Type 0) (Q : A → Type 0) (m : Outcome A) {a : A}
    {ws : List Warning}
    → Ensures P Q m
    → m ≡ ok a ws
    → Q a
Ensures-ok P Q m h e = rw e at h

pub Ensures-err {ℓ} :
    {A : Type ℓ} (P : Exception → Type 0) (Q : A → Type 0) (m : Outcome A) {e : Exception}
    → Ensures P Q m
    → m ≡ err e
    → P e
Ensures-err P Q m h e = rw e at h

-- The modes agree: the strict call returns just what the lenient one returns without a warning, and
-- where it raises, the lenient one raises too or has warned.
abbrev pub Agree {ℓ} : {A : Type ℓ} → Outcome A → Outcome A → Type ℓ
Agree (ok a vs) n = (vs ≡ []) × (n ≡ ok a [])
Agree (err e) (ok a []) = ⊥ × Unit
Agree (err e) (ok a (w ∷ ws)) = Unit
Agree (err e) (err e') = Unit

Agree-err-logged {ℓ} :
    {A : Type ℓ} (e : Exception) (w : Warning) (ws : List Warning) (m : Outcome A)
    → Agree (err e) (logged (w ∷ ws) m)
Agree-err-logged e w ws (ok a vs) = tt
Agree-err-logged e w ws (err x) = tt

pub Agree-bind {ℓ κ} :
    {A : Type ℓ} {B : Type κ} (m n : Outcome A) (f g : A → Outcome B)
    → Agree m n
    → ((a : A) → Agree (f a) (g a))
    → Agree (m >>= f) (n >>= g)
Agree-bind (ok a []) n f g (_, e) k = rw e (k a)
Agree-bind (ok a (v ∷ vs)) n f g (e, _) k = absurd (cc)
Agree-bind (err e) (ok a []) f g (h, _) k = absurd h
Agree-bind (err e) (ok a (w ∷ ws)) f g h k = Agree-err-logged e w ws (g a)
Agree-bind (err e) (err x) f g h k = tt

pub Agree-iff {ℓ} :
    {A : Type ℓ} (m n : Outcome A)
    → Agree m n
    → (a : A) → ((m ≡ ok a []) → (n ≡ ok a [])) × ((n ≡ ok a []) → (m ≡ ok a []))
Agree-iff (ok b vs) n (e, p) a = (λ q. cc (e, p, q), λ q. cc (e, p, q))
Agree-iff (err x) (ok b []) (h, _) a = absurd h
Agree-iff (err x) (ok b (w ∷ ws)) h a = (λ q. cc q, λ q. cc q)
Agree-iff (err x) (err y) h a = (λ q. cc q, λ q. cc q)

pub Agree-strict_quiet {ℓ} :
    {A : Type ℓ} (m n : Outcome A)
    → Agree m n
    → (a : A) (ws : List Warning) → m ≡ ok a ws
    → m ≡ ok a []
Agree-strict_quiet (ok b vs) n (e, p) a ws q = cc (e, q)
Agree-strict_quiet (err x) n h a ws q = absurd (cc q)

-- A call that never warns.
abbrev pub IsQuiet {ℓ} : {A : Type ℓ} → Outcome A → Type 0
IsQuiet (ok a []) = Unit
IsQuiet (ok a (w ∷ ws)) = ⊥
IsQuiet (err e) = Unit

pub IsQuiet-bind {ℓ κ} :
    {A : Type ℓ} {B : Type κ} (m : Outcome A) (f : A → Outcome B)
    → IsQuiet m
    → ((a : A) → IsQuiet (f a))
    → IsQuiet (m >>= f)
IsQuiet-bind (ok a []) f h k = k a
IsQuiet-bind (ok a (w ∷ ws)) f h k = absurd h
IsQuiet-bind (err e) f h k = tt

-- Nothing is said of a call that raises.
abbrev pub Any : Exception → Type 0
Any e = Unit

pub Ensures-self : {A : Type 0} (m : Outcome A) → IsQuiet m → Ensures Any (λ a. m ≡ ok a []) m
Ensures-self (ok a []) h = refl
Ensures-self (ok a (w ∷ ws)) h = absurd h
Ensures-self (err e) h = tt

pub Agree-of_quiet {ℓ} : {A : Type ℓ} (m : Outcome A) → IsQuiet m → Agree m m
Agree-of_quiet (ok a []) h = (refl, refl)
Agree-of_quiet (ok a (w ∷ ws)) h = absurd h
Agree-of_quiet (err e) h = tt

-- After a call that never warns the two modes go on alike.
pub Agree-bind_quiet {ℓ κ} :
    {A : Type ℓ} {B : Type κ} (m : Outcome A) (f g : A → Outcome B)
    → IsQuiet m
    → ((a : A) → Agree (f a) (g a))
    → Agree (m >>= f) (m >>= g)
Agree-bind_quiet m f g h k = Agree-bind m m f g (Agree-of_quiet m h) k

pub Agree-if {ℓ} :
    {A : Type ℓ} (b : Bool) (m n m' n' : Outcome A)
    → Agree m n
    → Agree m' n'
    → Agree (if b then m else m') (if b then n else n')
Agree-if true m n m' n' h k = h
Agree-if false m n m' n' h k = k

pub raise_if-Ensures :
    (P : Exception → Type 0) (test : Bool) (e : Exception)
    → P e
    → Ensures P (λ _. test ≡ false) (raise_if test e)
raise_if-Ensures P true e h = h
raise_if-Ensures P false e h = refl

pub raise_if_passes : (test : Bool) (e : Exception) → test ≡ false → raise_if test e ≡ ok tt []
raise_if_passes test e h = rw h

-- A test is known in the branch that it selects.
pub Ensures-if {ℓ} :
    {A : Type ℓ} (P : Exception → Type 0) (Q : A → Type 0) (test : Bool) (m n : Outcome A)
    → (test ≡ true → Ensures P Q m)
    → (test ≡ false → Ensures P Q n)
    → Ensures P Q (if test then m else n)
Ensures-if P Q true m n h k = h refl
Ensures-if P Q false m n h k = k refl

-- As `Ensures`, of a call that also never warns.
abbrev pub Yields {ℓ} : {A : Type ℓ} → (Exception → Type 0) → (A → Type 0) → Outcome A → Type 0
Yields P Q (ok a []) = Q a
Yields P Q (ok a (w ∷ ws)) = ⊥
Yields P Q (err e) = P e

pub Yields-of {ℓ} :
    {A : Type ℓ} (P : Exception → Type 0) (Q : A → Type 0) (m : Outcome A)
    → Ensures P Q m
    → IsQuiet m
    → Yields P Q m
Yields-of P Q (ok a []) h k = h
Yields-of P Q (ok a (w ∷ ws)) h k = k
Yields-of P Q (err e) h k = h

pub Yields-Ensures {ℓ} :
    {A : Type ℓ} (P : Exception → Type 0) (Q : A → Type 0) (m : Outcome A)
    → Yields P Q m
    → Ensures P Q m
Yields-Ensures P Q (ok a []) h = h
Yields-Ensures P Q (ok a (w ∷ ws)) h = absurd h
Yields-Ensures P Q (err e) h = h

pub Yields-bind {ℓ κ} :
    {A : Type ℓ} {B : Type κ} (P : Exception → Type 0) (Q : A → Type 0) (R : B → Type 0)
    (m : Outcome A) (f : A → Outcome B)
    → Yields P Q m
    → ((a : A) → Q a → Yields P R (f a))
    → Yields P R (m >>= f)
Yields-bind P Q R (ok a []) f h k = k a h
Yields-bind P Q R (ok a (w ∷ ws)) f h k = absurd h
Yields-bind P Q R (err e) f h k = h

pub Yields-if {ℓ} :
    {A : Type ℓ} (P : Exception → Type 0) (Q : A → Type 0) (test : Bool) (m n : Outcome A)
    → (test ≡ true → Yields P Q m)
    → (test ≡ false → Yields P Q n)
    → Yields P Q (if test then m else n)
Yields-if P Q true m n h k = h refl
Yields-if P Q false m n h k = k refl

-- What is raised, what is returned, and that it is this call that returned it.
pub Ensures-both :
    {A : Type 0} (P : Exception → Type 0) (Q : A → Type 0) (m : Outcome A)
    → Ensures P (λ _. Unit) m
    → Ensures Any Q m
    → Ensures P (λ a. Q a × ((ws : List Warning) × (m ≡ ok a ws))) m
Ensures-both P Q (ok a ws) h k = (k, (ws, refl))
Ensures-both P Q (err e) h k = h
