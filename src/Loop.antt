-- ===== src/Loop.antt =====
-- `loop` with `break`, `continue` and `return`: a step on the loop's variables, run on fuel, with
-- its rules for partial and for total correctness.
use mathlib.Core.Path.{subst}
use rustory.Prelude.{
  ℕ, zero, suc, ◌<◌, ◌≡◌, refl, Bool, true, false, Option, none, some, arith, if◌then◌else◌,
}

pub data Step {ℓ} (S A : Type ℓ) : Type ℓ where
  next : S → Step S A
  stop : A → Step S A

unfoldable pub resume {ℓ} : {S A : Type ℓ} → (S → Option A) → Step S A → Option A
resume go (next s) = go s
resume go (stop a) = some a

-- `none`: the fuel ran out before the loop was left.
unfoldable pub run_loop {ℓ} : {S A : Type ℓ} → ℕ → (S → Step S A) → S → Option A
unfolding resume
run_loop zero step s = none
run_loop (suc fuel) step s = resume (run_loop fuel step) (step s)

-- What a step must do for an invariant `P` and a result property `Q`.
abbrev pub Keeps {ℓ κ} : {S A : Type ℓ} → (S → Type κ) → (A → Type κ) → Step S A → Type κ
Keeps P Q (next s) = P s
Keeps P Q (stop a) = Q a

module _ {ℓ κ} {S A : Type ℓ} (P : S → Type κ) (Q : A → Type κ) where
  pub Keeps-and :
      (P' : S → Type κ) (Q' : A → Type κ) (st : Step S A)
      → Keeps P Q st
      → Keeps P' Q' st
      → Keeps (λ s. P s × P' s) (λ a. Q a × Q' a) st
  Keeps-and P' Q' (next s) h k = (h, k)
  Keeps-and P' Q' (stop a) h k = (h, k)

  -- A branching step keeps what both branches keep, each under its test.
  pub Keeps-if :
      (b : Bool) (x y : Step S A)
      → (b ≡ true → Keeps P Q x)
      → (b ≡ false → Keeps P Q y)
      → Keeps P Q (if b then x else y)
  Keeps-if true x y h k = h refl
  Keeps-if false x y h k = k refl

module _ {ℓ κ} {S A : Type ℓ} (P : S → Type κ) (Q : A → Type κ) (step : S → Step S A) where
  resume_partial :
      (go : S → Option A) (a : A)
      → ((s : S) → P s → go s ≡ some a → Q a)
      → (st : Step S A) → Keeps P Q st
      → resume go st ≡ some a
      → Q a
  unfolding resume
  resume_partial go a rest (next s) k e = rest s k e
  resume_partial go a rest (stop b) k e = subst Q (cc) k

  -- The result of a loop has `Q` if each step keeps `P` and each exit gives `Q`.
  pub run_loop_partial :
      ((s : S) → P s → Keeps P Q (step s))
      → (fuel : ℕ) (s : S) (a : A) → P s
      → run_loop fuel step s ≡ some a
      → Q a
  unfolding run_loop
  run_loop_partial keep zero s a p e = cc
  run_loop_partial keep (suc fuel) s a p e =
      resume_partial (run_loop fuel step) a (λ s' p' e'. run_loop_partial keep fuel s' a p' e')
        (step s) (keep s p) e

  resume_total :
      (go : S → Option A)
      → ((s : S) → P s → (a : A) × (go s ≡ some a) × Q a)
      → (st : Step S A) → Keeps P Q st
      → (a : A) × (resume go st ≡ some a) × Q a
  unfolding resume
  resume_total go rest (next s) k = rest s k
  resume_total go rest (stop a) k = (a, refl, k)

module _ {ℓ κ} {S A : Type ℓ} (P : S → Type κ) (Q : A → Type κ) (step : S → Step S A)
    (measure : S → ℕ) where
  -- With a measure that falls on each step, fuel above it is enough, and the result has `Q`.
  pub run_loop_total :
      ((s : S) → P s → Keeps (λ s'. P s' × (measure s' < measure s)) Q (step s))
      → (fuel : ℕ) (s : S) → P s
      → measure s < fuel
      → (a : A) × (run_loop fuel step s ≡ some a) × Q a
  unfolding run_loop
  run_loop_total keep zero s p h = absurd (omega arith)
  run_loop_total keep (suc fuel) s p h =
      resume_total (λ s'. P s' × (measure s' < measure s)) Q step (run_loop fuel step)
        (λ s' p'. run_loop_total keep fuel s' p'.0 (omega (arith, p'.1))) (step s) (keep s p)

module _ {ℓ κ} {S A : Type ℓ} (P : S → Type κ) (step step' : S → Step S A) where
  resume_agree :
      (go go' : S → Option A)
      → ((s : S) → P s → go s ≡ go' s)
      → (st : Step S A) → Keeps P (λ a. Unit {κ}) st
      → resume go st ≡ resume go' st
  unfolding resume
  resume_agree go go' same (next s) k = same s k
  resume_agree go go' same (stop a) k = refl

  -- Two steps that agree where an invariant holds, which they keep, run alike.
  pub run_loop_agree :
      ((s : S) → P s → step s ≡ step' s)
      → ((s : S) → P s → Keeps P (λ a. Unit {κ}) (step' s))
      → (fuel : ℕ) (s : S) → P s
      → run_loop fuel step s ≡ run_loop fuel step' s
  unfolding run_loop
  run_loop_agree same keep zero s p = refl
  run_loop_agree same keep (suc fuel) s p = rw (same s p) (
      resume_agree (run_loop fuel step) (run_loop fuel step')
        (λ s' p'. run_loop_agree same keep fuel s' p') (step' s) (keep s p))
