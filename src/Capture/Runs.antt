-- ===== src/Capture/Runs.antt =====
-- What the runs of generators may end with, and the reads in either byte order.
use rtpkit.Common.{
  ℕ, ◌+◌, ◌≤◌, ◌≡◌, Bool, true, false, List, [], ◌∷◌, drop, length, length-drop, refl,
  if◌then◌else◌, arith,
}
use rtpkit.Errors.{Exception, is_capture_error}
use rtpkit.Outcome.{Outcome, ok, err}
use rtpkit.Outcome.Laws.{Ensures, Ensures-mono}
use rtpkit.Wire.{Bytes, u16_at, u32_at}
use rtpkit.Wire.Order.{
  ByteOrder, big, little, first_u16_le, first_u32_le, ordered_u16_at, ordered_u32_at,
}
use rtpkit.Wire.Read.{u16_at_reads, u32_at_reads}
use rtpkit.Capture.{Run, yields, logs, returns, raises, after}

-- If the run raises at its end, then something that satisfies `P`.
abbrev pub Ends {ℓ} : {A : Type ℓ} → (Exception → Type 0) → Run A → Type 0
Ends P (yields a more) = Ends P more
Ends P (logs w more) = Ends P more
Ends P returns = Unit
Ends P (raises e) = P e

abbrev pub IsCaptureError : Exception → Type 0
IsCaptureError e = is_capture_error e ≡ true

pub after-Ends {ℓ κ} :
    {A : Type ℓ} {B : Type κ} (P : Exception → Type 0) (Q : A → Type 0) (m : Outcome A)
    (k : A → Run B)
    → Ensures P Q m
    → ((a : A) → Q a → Ends P (k a))
    → Ends P (after m k)
after-Ends P Q (ok a ws) k h f = f a h
after-Ends P Q (err e) k h f = h

pub Ends-if {ℓ} :
    {A : Type ℓ} (P : Exception → Type 0) (test : Bool) (r s : Run A)
    → (test ≡ true → Ends P r)
    → (test ≡ false → Ends P s)
    → Ends P (if test then r else s)
Ends-if P true r s h k = h refl
Ends-if P false r s h k = k refl

-- The packets of a run, in order.
abbrev pub yielded {ℓ} : {A : Type ℓ} → Run A → List A
yielded (yields a more) = a ∷ yielded more
yielded (logs w more) = yielded more
yielded returns = []
yielded (raises e) = []

abbrev pub Reads : ℕ → Type 0
Reads n = Unit

module _ (P : Exception → Type 0) where
  first_u16_le-Reads : (bytes : Bytes) → 2 ≤ length bytes → Ensures P Reads (first_u16_le bytes)
  first_u16_le-Reads [] h = absurd (omega arith)
  first_u16_le-Reads (a ∷ []) h = absurd (omega arith)
  first_u16_le-Reads (a ∷ b ∷ rest) h = tt

  first_u32_le-Reads : (bytes : Bytes) → 4 ≤ length bytes → Ensures P Reads (first_u32_le bytes)
  first_u32_le-Reads [] h = absurd (omega arith)
  first_u32_le-Reads (a ∷ []) h = absurd (omega arith)
  first_u32_le-Reads (a ∷ b ∷ []) h = absurd (omega arith)
  first_u32_le-Reads (a ∷ b ∷ c ∷ []) h = absurd (omega arith)
  first_u32_le-Reads (a ∷ b ∷ c ∷ d ∷ rest) h = tt

  pub ordered_u16_at-Reads :
      (order : ByteOrder) (bytes : Bytes) (i : ℕ)
      → i + 2 ≤ length bytes
      → Ensures P Reads (ordered_u16_at order bytes i)
  unfolding ordered_u16_at
  ordered_u16_at-Reads big bytes i h =
      Ensures-mono P P _ Reads (u16_at bytes i) (u16_at_reads P bytes i h) (λ e p. p) (λ v q. tt)
  ordered_u16_at-Reads little bytes i h =
      first_u16_le-Reads (drop i bytes) (omega (arith, length-drop i bytes))

  pub ordered_u32_at-Reads :
      (order : ByteOrder) (bytes : Bytes) (i : ℕ)
      → i + 4 ≤ length bytes
      → Ensures P Reads (ordered_u32_at order bytes i)
  unfolding ordered_u32_at
  ordered_u32_at-Reads big bytes i h =
      Ensures-mono P P _ Reads (u32_at bytes i) (u32_at_reads P bytes i h) (λ e p. p) (λ v q. tt)
  ordered_u32_at-Reads little bytes i h =
      first_u32_le-Reads (drop i bytes) (omega (arith, length-drop i bytes))
