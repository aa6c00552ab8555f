-- ===== src/Sync/Pull/Range.antt =====
-- src/sync.rs: the cursors and limits that a pull run asks for are in their ranges of 64 bits.
use rustory.Prelude.{
  ℕ, ℤ, pos, negsuc, ◌≤◌, ◌<◌, Text, Bool, true, false, Option, none, some, List, [], ◌∷◌, ◌++◌,
  ◌≡◌, refl, sym, ◌∙◌, arith, as_i64, leb, ltb, leb_ℤ, ◌&&◌, if◌then◌else◌, Bool-cases, inl, inr,
}
use mathlib.Core.Path.{subst}
use rustory.Prelude.Decimal.{IsI64}
use rustory.Errors.{Error, Result, ok, err, ok_injective}
use rustory.Core.{Entry, TimeApi}
use rustory.Loop.{Step, Keeps, Keeps-if, run_loop_agree}
use rustory.Storage.Schema.{Sqlite, Row, LocalStore}
use rustory.Storage.Entries.{PullBatch, pull_since_cursor}
use rustory.Storage.Entries.Invariant.{IsWellFormed, Rising, Rising-keep_if, Rising-bounds}
use rustory.Storage.Entries.Paging.{after, page, next_of, last_key, limit_rows-prefix}
use rustory.Storage.Entries.Pull.{pull_since_cursor_lem}
use rustory.Storage.Peers.{get_last_cursor}
use rustory.Sync.{PullStats, Run, is_payload_too_large_error, halved}
use rustory.Sync.Pull.{
  PullState, PullFn, pull_failed, pull_advance, pull_received, pull_answer, pull_step, pull_start,
  sync_pull_from_peer,
}
use rustory.Sync.Pull.NoGap.{IsHonest}
use rustory.Sync.Pull.Complete.{halved-lt}

abbrev pub limit_bound : ℕ
limit_bound = 18446744073709551616

abbrev pub seq_bound : ℕ
seq_bound = 9223372036854775808

-- The cursor is one of 64 bits, and the limit is below `top`.
abbrev pub in_range : ℕ → ℤ → ℕ → Bool
in_range top (pos n) limit = ltb n 9223372036854775808 && ltb limit top
in_range top (negsuc n) limit = ltb n 9223372036854775808 && ltb limit top

in_range-IsI64 : (top : ℕ) (c : ℤ) (limit : ℕ) → IsI64 c → limit < top → in_range top c limit ≡ true
in_range-IsI64 top (pos n) limit h k = ground arith
in_range-IsI64 top (negsuc n) limit h k = ground arith

pub in_range_of :
    (top : ℕ) (c : ℤ) (limit : ℕ) → in_range top c limit ≡ true → IsI64 c × (limit < top)
in_range_of top (pos n) limit h = ground arith
in_range_of top (negsuc n) limit h = ground arith

abbrev IsRanged : {R : Type 0} → ℕ → PullState R → Type 0
IsRanged top s = IsI64 s.cursor × (s.batch_limit < top)

abbrev IsRangedNext : Option ℤ → Type 0
IsRangedNext none = Unit
IsRangedNext (some c) = IsI64 c

last_key-le : (k hi : ℕ) (p q : List Row) → Rising k (p ++ q) hi → last_key k p ≤ hi
last_key-le k hi [] q r = Rising-bounds k hi q r
last_key-le k hi (x ∷ p) q r = last_key-le x.ingest_seq hi p q r.1

next_of_page :
    (lo hi : ℕ) (p q : List Row) → Rising lo (p ++ q) hi → hi < seq_bound → IsRangedNext (next_of p)
next_of_page lo hi [] q r h = tt
next_of_page lo hi (x ∷ p) q r h = omega (arith, h, last_key-le x.ingest_seq hi p q r.1)

halved_below : (top n : ℕ) → leb n 1 ≡ false → n < top → halved n < top
halved_below top n more h = let big : 1 < n = ground arith in omega (arith, h, halved-lt n big)

module _ {R : Type 0} (top : ℕ) where
  abbrev Ranged : Step (PullState R) (Run R PullStats) → Type 0
  Ranged = Keeps (IsRanged top) (λ run. Unit {0})

  failed-Ranged : (s : PullState R) (e : Error) → IsRanged top s → Ranged (pull_failed s e)
  unfolding pull_failed
  failed-Ranged s e h =
      Keeps-if (IsRanged top) (λ run. Unit {0}) (is_payload_too_large_error e) _ _
        (λ large.
          Keeps-if (IsRanged top) (λ run. Unit {0}) (leb s.batch_limit 1) _ _ (λ t. tt)
            (λ f. (h.0, halved_below top s.batch_limit f h.1)))
        (λ other. tt)

  advance-Ranged :
      (peer_id : Text) (s : PullState R) (c : Option ℤ)
      → IsRanged top s
      → IsRangedNext c
      → Ranged (pull_advance peer_id s c)
  unfolding pull_advance
  advance-Ranged peer_id s none h k = tt
  advance-Ranged peer_id s (some c) h k =
      Keeps-if (IsRanged top) (λ run. Unit {0}) (leb_ℤ c s.cursor) _ _ (λ t. tt) (λ f. (k, h.1))

module _ {T : Type 0} ⦃time : TimeApi T⦄ (far : LocalStore) (w : IsWellFormed time far)
    (small : far.entries_mark < seq_bound) where
  next-IsRangedNext :
      (cursor : ℤ) (limit : ℕ) (batch : PullBatch T)
      → pull_since_cursor far cursor limit ≡ ok batch
      → IsRangedNext batch.next_cursor
  next-IsRangedNext cursor limit batch e =
      let same = ok_injective (sym (pull_since_cursor_lem far cursor limit w) ∙ e) in
      let (q, split) = limit_rows-prefix (as_i64 limit) (after cursor far.entries) in
      subst (λ b. IsRangedNext b.next_cursor) same
        (next_of_page 0 far.entries_mark (page cursor limit far.entries) q
          (subst (λ l. Rising 0 l far.entries_mark) split
            (Rising-keep_if _ 0 far.entries_mark far.entries w.rising))
          small)

module _ {T R : Type 0} ⦃time : TimeApi T⦄ ⦃sql : Sqlite⦄ (peer_id : Text) (far : LocalStore)
    (w : IsWellFormed time far) (small : far.entries_mark < seq_bound) (top : ℕ) where
  received-Ranged :
      (s : PullState R) (es : List (Entry T)) (c : Option ℤ)
      → IsRanged top s
      → IsRangedNext c
      → Ranged top (pull_received peer_id s es c)
  unfolding pull_received
  received-Ranged s [] c h k = tt
  received-Ranged s (e ∷ es) c h k = advance-Ranged top peer_id _ c h k

  answer-Ranged :
      (s : PullState R) (a : Result (PullBatch T))
      → IsRanged top s
      → ((batch : PullBatch T) → a ≡ ok batch → IsRangedNext batch.next_cursor)
      → Ranged top (pull_answer peer_id s a)
  unfolding pull_answer
  answer-Ranged s (ok batch) h k =
      received-Ranged s batch.entries batch.next_cursor h (k batch refl)
  answer-Ranged s (err e) h k = failed-Ranged top s e h

  step-Ranged :
      (pull : PullFn T R) (s : PullState R)
      → IsHonest time far pull
      → IsRanged top s
      → Ranged top (pull_step pull peer_id s)
  unfolding pull_step
  step-Ranged pull s honest h =
      answer-Ranged _ (pull s.remote s.cursor s.batch_limit).0 h (λ batch e.
        next-IsRangedNext far w small s.cursor s.batch_limit batch
          (honest s.remote s.cursor s.batch_limit batch e))

  -- The far side, which outside the ranges answers from its store all the same.
  unfoldable pub within : PullFn T R → PullFn T R
  within pull remote cursor limit =
      if in_range top cursor limit
      then pull remote cursor limit
      else (pull_since_cursor far cursor limit, remote)

  -- Honest in the ranges alone.
  abbrev pub IsHonestInRange : PullFn T R → Type 0
  IsHonestInRange pull =
      (remote : R) (cursor : ℤ) (limit : ℕ) (batch : PullBatch T)
      → IsI64 cursor
      → limit < top
      → (pull remote cursor limit).0 ≡ ok batch
      → pull_since_cursor far cursor limit ≡ ok batch

  pub within-IsHonest : (pull : PullFn T R) → IsHonestInRange pull → IsHonest time far (within pull)
  unfolding within
  within-IsHonest pull honest remote cursor limit batch e =
      elim (Bool-cases (in_range top cursor limit)) [
        | inl t ↦
            let (hc, hl) = in_range_of top cursor limit t in
            honest remote cursor limit batch hc hl (rw t at e)
        | inr f ↦ rw f at e
      ]

  step_within :
      (pull : PullFn T R) (s : PullState R)
      → IsRanged top s
      → pull_step pull peer_id s ≡ pull_step (within pull) peer_id s
  unfolding pull_step within
  step_within pull s h = rw (in_range-IsI64 top s.cursor s.batch_limit h.0 h.1) refl

  -- From a far side that is honest in the ranges a run asks for nothing outside them: no limit is above
  -- the first one.
  pub sync_pull_within :
      (fuel : ℕ) (db : LocalStore) (limit : ℕ) (pull : PullFn T R) (remote : R)
      → IsI64 (get_last_cursor db peer_id)
      → limit < top
      → IsHonestInRange pull
      → sync_pull_from_peer fuel db peer_id limit pull remote
        ≡ sync_pull_from_peer fuel db peer_id limit (within pull) remote
  unfolding sync_pull_from_peer
  sync_pull_within fuel db limit pull remote hc hl honest =
      let agree =
        run_loop_agree (IsRanged top) (pull_step pull peer_id) (pull_step (within pull) peer_id)
          (λ s h. step_within pull s h)
          (λ s h. step-Ranged (within pull) s (within-IsHonest pull honest) h) fuel
          (pull_start db peer_id limit remote) (hc, hl) in
      rw agree refl
