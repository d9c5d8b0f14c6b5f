-- ===== src/Outcome.antt =====
-- What a call of the library does: it returns a value, having logged some warnings, or it raises.
-- The parsers log only in lenient mode, where a warning is never followed by an exception, so
-- the warnings before a raise are dropped.
pub mod Laws
use rtpkit.Common.{ℕ, Bool, true, false, List, [], ◌∷◌, ◌++◌, if◌then◌else◌}
use rtpkit.Errors.{Exception}

-- The calls of `logger.warning`, with the numbers that they print.
pub data Warning : Type 0 where
  version_mismatch : (version : ℕ) → Warning
  csrc_truncated : (cc : ℕ) → Warning
  extension_header_truncated : Warning
  extension_data_truncated : (declared available : ℕ) → Warning
  padding_without_bytes padding_zero : Warning
  padding_exceeds : (pad_count available : ℕ) → Warning
  trailing_bytes : (remaining : ℕ) → Warning
  packet_overrun : (packet_len remaining : ℕ) → Warning
  rtcp_padding_empty : Warning
  rtcp_padding_invalid : (pad_count : ℕ) → Warning
  packet_skipped : (packet_type : ℕ) → Warning

pub data Outcome {ℓ} (A : Type ℓ) : Type ℓ where
  ok : A → List Warning → Outcome A
  err : Exception → Outcome A

abbrev pub logged {ℓ} : {A : Type ℓ} → List Warning → Outcome A → Outcome A
logged ws (ok a vs) = ok a (ws ++ vs)
logged ws (err e) = err e

infixl 5 ◌>>=◌ ◌>>◌
abbrev pub ◌>>=◌ {ℓ κ} : {A : Type ℓ} {B : Type κ} → Outcome A → (A → Outcome B) → Outcome B
ok a [] >>= f = f a
ok a (w ∷ ws) >>= f = logged (w ∷ ws) (f a)
err e >>= f = err e

abbrev pub ◌>>◌ {ℓ κ} : {A : Type ℓ} {B : Type κ} → Outcome A → Outcome B → Outcome B
m >> k = m >>= λ _. k

abbrev pub pure {ℓ} : {A : Type ℓ} → A → Outcome A
pure a = ok a []

-- `if strict: raise e`, else `logger.warning(w)` and go on with `a`.
abbrev pub raise_or_warn {ℓ} : {A : Type ℓ} → Bool → Exception → Warning → A → Outcome A
raise_or_warn strict e w a = if strict then err e else ok a (w ∷ [])

-- `if test: raise e`.
abbrev pub raise_if : Bool → Exception → Outcome (Unit {0})
raise_if test e = if test then err e else ok tt []
