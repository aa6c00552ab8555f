-- ===== src/Errors.antt =====
-- `anyhow::Error`: a chain of causes, the outermost first, and results that carry it.
use rustory.Prelude.{ℕ, Text, List, [], ◌∷◌, codes, String, ◌≡◌, refl, ◌⊎◌, inl, inr}

-- `libp2p_request_response::OutboundFailure`.
pub data OutboundFailure : Type 0 where
  dial_failure : OutboundFailure
  request_timeout : OutboundFailure
  connection_closed : OutboundFailure
  unsupported_protocols : OutboundFailure
  io : Text → OutboundFailure

-- The causes that the program tells apart: a `ureq` status or transport failure, the failure of a
-- libp2p request, and any other error, read by its text alone.
pub data Cause : Type 0 where
  http_status : ℕ → Cause
  http_transport : Cause
  outbound : OutboundFailure → Cause
  message : Text → Cause

abbrev pub Error : Type 0
Error = List Cause

pub data Result {ℓ} (A : Type ℓ) : Type ℓ where
  ok : A → Result A
  err : Error → Result A

infixl 5 ◌>>=◌ ◌>>◌
abbrev pub ◌>>=◌ {ℓ κ} : {A : Type ℓ} {B : Type κ} → Result A → (A → Result B) → Result B
ok a >>= f = f a
err e >>= f = err e

abbrev pub ◌>>◌ {ℓ κ} : {A : Type ℓ} {B : Type κ} → Result A → Result B → Result B
m >> k = m >>= λ _. k

-- `bail!` and `anyhow!`.
abbrev pub anyhow : String → Error
anyhow s = message (codes s) ∷ []

-- `.context(…)` of an error.
abbrev pub context : String → Error → Error
context s e = message (codes s) ∷ e

pub ok_injective {ℓ} : {A : Type ℓ} {a b : A} → ok a ≡ ok b → a ≡ b
ok_injective h = cc

pub Result-cases {ℓ} :
    {A : Type ℓ} (r : Result A) → ((a : A) × (r ≡ ok a)) ⊎ ((e : Error) × (r ≡ err e))
Result-cases (ok a) = inl (a, refl)
Result-cases (err e) = inr (e, refl)
