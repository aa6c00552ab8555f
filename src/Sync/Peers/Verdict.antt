-- ===== src/Sync/Peers/Verdict.antt =====
-- src/sync.rs, src/transport.rs and src/p2p.rs: the progress of a run over several peers and its result.
use mathlib.Core.Path.{subst}
use rustory.Prelude.{
  Option-cases, ◌+◌, ℕ, Text, Bool, true, false, Option, none, some, List, [], ◌∷◌, ◌≡◌, refl, ltb,
  any_of, not, ◌&&◌, ◌||◌, if◌then◌else◌, arith, inl, inr, length, suc, Bool-cases, ◌∙◌, ap,
}
use rustory.Errors.{Error, Result, ok, err, message}
use rustory.Storage.Schema.{LocalStore}
use rustory.Sync.{
  PullStats, SyncRunProgress, new_progress, mark_pull_ok, note_push_needed, mark_push_ok,
  is_success,
}
use rustory.Sync.Peers.{
  Pushing, PeerOutcome, SyncState, SyncRun, is_ok, sync_start, after_pull, push_noted, after_push,
  observed, each_peer, sync_result,
}

abbrev pub was_needed : Option (Result Pushing) → Bool
was_needed (some (ok p)) = ltb 0 p.pending
was_needed (some (err e)) = false
was_needed none = false

abbrev pub was_pushed : Option (Result Pushing) → Bool
was_pushed (some (ok p)) = ltb 0 p.pending && is_ok p.pushed
was_pushed (some (err e)) = false
was_pushed none = false

-- The last error of a peer.
abbrev pub error_of : {A : Type 0} → Option Error → Result A → Option Error
error_of before (ok a) = before
error_of before (err e) = some e

abbrev pub push_error : Option Error → Option (Result Pushing) → Option Error
push_error before (some (ok p)) = error_of before p.pushed
push_error before (some (err e)) = some e
push_error before none = before

abbrev pub last_error : List PeerOutcome → Option Error
last_error [] = none
last_error (o ∷ os) = push_error (error_of (last_error os) o.pull) o.push

-- Some pull has ended well, and if there was anything to push, some push of it has.
abbrev pub has_succeeded : List PeerOutcome → Bool
has_succeeded os =
    any_of (λ o. is_ok o.pull) os
    && (not (any_of (λ o. was_needed o.push) os) || any_of (λ o. was_pushed o.push) os)

-- The progress and the last error are those of the outcomes so far.
pub record IsTracked {R : Type 0} (push : Bool) (n : ℕ) (s : SyncState R) : Type 0 where
  pub pulls : s.progress.pull_ok ≡ any_of (λ o. is_ok o.pull) s.outcomes
  pub requested : s.progress.push_requested ≡ push
  pub needs : s.progress.push_needed ≡ any_of (λ o. was_needed o.push) s.outcomes
  pub pushes : s.progress.push_ok ≡ any_of (λ o. was_pushed o.push) s.outcomes
  pub error : s.last_err ≡ last_error s.outcomes
  pub seen : length s.outcomes ≡ n
  pub unasked : push ≡ false → any_of (λ o. was_needed o.push) s.outcomes ≡ false

-- The run is well if it has succeeded, and otherwise its error is the last one of any peer.
abbrev pub Verdict : Bool → Option Error → Result (Unit {0}) → Type 0
Verdict true e r = r ≡ ok tt
Verdict false e r = (error : Error) × (e ≡ some error) × (r ≡ err error)

abbrev pub IsVerdict : {R : Type 0} → SyncRun R → Type 0
IsVerdict run = Verdict (has_succeeded run.outcomes) (last_error run.outcomes) run.result

or_comm : (a b : Bool) → (a || b) ≡ (b || a)
or_comm a b = ground arith

and_false : (a b : Bool) → b ≡ ((a && false) || b)
and_false a b = ground arith

ands : (a b c : Bool) → b ≡ c → (a || b) ≡ ((a && true) || c)
ands a b c h = ground arith

marked :
    (p : SyncRunProgress) (b : Bool)
    → let q = mark_push_ok (note_push_needed p b) b in
      (q.pull_ok ≡ p.pull_ok)
      × (q.push_requested ≡ p.push_requested)
      × (q.push_needed ≡ (b || p.push_needed))
      × (q.push_ok ≡ (b || p.push_ok))
unfolding mark_push_ok note_push_needed
marked p true = (refl, refl, or_comm p.push_needed true, refl)
marked p false = (refl, refl, or_comm p.push_needed false, refl)

module _ {R : Type 0} (push : Bool) where
  pub moved-IsTracked :
      (n : ℕ) (s : SyncState R) (local : LocalStore) (remote : R)
      → IsTracked push n s
      → IsTracked push n (record s { local = local; remote = remote })
  moved-IsTracked n s local remote h = record {
    pulls = h.pulls;
    requested = h.requested;
    needs = h.needs;
    pushes = h.pushes;
    error = h.error;
    seen = h.seen;
    unasked = h.unasked;
  }

  pub start-IsTracked :
      (local : LocalStore) (remote : R) → IsTracked push 0 (sync_start push local remote)
  unfolding sync_start new_progress
  start-IsTracked local remote = record {
    pulls = refl;
    requested = refl;
    needs = refl;
    pushes = refl;
    error = refl;
    seen = refl;
    unasked = λ h. refl;
  }

  pub pulled-IsTracked :
      (n : ℕ) (r : Result PullStats) (s : SyncState R)
      → IsTracked push n s
      → IsTracked push (suc n) (observed (record { pull = r; push = none }) (after_pull r s))
  unfolding after_pull mark_pull_ok
  pulled-IsTracked n (ok stats) s h = record {
    pulls = refl;
    requested = h.requested;
    needs = h.needs;
    pushes = h.pushes;
    error = h.error;
    seen = ap suc h.seen;
    unasked = h.unasked;
  }
  pulled-IsTracked n (err e) s h = record {
    pulls = h.pulls;
    requested = h.requested;
    needs = h.needs;
    pushes = h.pushes;
    error = refl;
    seen = ap suc h.seen;
    unasked = h.unasked;
  }

  pub preflight-IsTracked :
      (n : ℕ) (r : Result PullStats) (e : Error) (s : SyncState R)
      → IsTracked push n s
      → IsTracked push (suc n) (
          observed
            (record { pull = r; push = some (err e) })
            (record (after_pull r s) { last_err = some e }))
  unfolding after_pull mark_pull_ok
  preflight-IsTracked n (ok stats) e s h = record {
    pulls = refl;
    requested = h.requested;
    needs = h.needs;
    pushes = h.pushes;
    error = refl;
    seen = ap suc h.seen;
    unasked = h.unasked;
  }
  preflight-IsTracked n (err e') e s h = record {
    pulls = h.pulls;
    requested = h.requested;
    needs = h.needs;
    pushes = h.pushes;
    error = refl;
    seen = ap suc h.seen;
    unasked = h.unasked;
  }

  pub pushed-IsTracked :
      (n : ℕ) (r : Result PullStats) (pending : ℕ) (p : Result ℕ) (s : SyncState R)
      → push ≡ true
      → IsTracked push n s
      → IsTracked push (suc n) (
          observed
            (record { pull = r; push = some (ok (record { pending = pending; pushed = p })) })
            (after_push (ltb 0 pending) p (push_noted pending (after_pull r s))))
  unfolding after_pull mark_pull_ok after_push push_noted note_push_needed
  pushed-IsTracked n (ok stats) pending (ok m) s asked h =
      let (pulls, requested, needs, pushes) = marked (mark_pull_ok s.progress) (ltb 0 pending) in
      record {
        pulls = pulls;
        requested = requested ∙ h.requested;
        needs = needs ∙ ap (λ x. ltb 0 pending || x) h.needs;
        pushes = pushes ∙ ands (ltb 0 pending) s.progress.push_ok _ h.pushes;
        error = h.error;
        seen = ap suc h.seen;
        unasked = λ no. absurd (cc);
      }
  pushed-IsTracked n (ok stats) pending (err e) s asked h = record {
    pulls = refl;
    requested = h.requested;
    needs = or_comm s.progress.push_needed (ltb 0 pending) ∙ ap (λ x. ltb 0 pending || x) h.needs;
    pushes = h.pushes ∙ and_false (ltb 0 pending) _;
    error = refl;
    seen = ap suc h.seen;
    unasked = λ no. absurd (cc);
  }
  pushed-IsTracked n (err e') pending (ok m) s asked h =
      let (pulls, requested, needs, pushes) = marked s.progress (ltb 0 pending) in
      record {
        pulls = pulls ∙ h.pulls;
        requested = requested ∙ h.requested;
        needs = needs ∙ ap (λ x. ltb 0 pending || x) h.needs;
        pushes = pushes ∙ ands (ltb 0 pending) s.progress.push_ok _ h.pushes;
        error = refl;
        seen = ap suc h.seen;
        unasked = λ no. absurd (cc);
      }
  pushed-IsTracked n (err e') pending (err e) s asked h = record {
    pulls = h.pulls;
    requested = h.requested;
    needs = or_comm s.progress.push_needed (ltb 0 pending) ∙ ap (λ x. ltb 0 pending || x) h.needs;
    pushes = h.pushes ∙ and_false (ltb 0 pending) _;
    error = refl;
    seen = ap suc h.seen;
    unasked = λ no. absurd (cc);
  }

left_ok :
    {A : Type 0} (before : Option Error) (r : Result A)
    → error_of before r ≡ none
    → (before ≡ none) × (is_ok r ≡ true)
left_ok before (ok a) h = (h, refl)
left_ok before (err e) h = absurd (cc)

or_pushed :
    (b done needed pushed : Bool)
    → done ≡ true
    → (not needed || pushed) ≡ true
    → (not (b || needed) || ((b && done) || pushed)) ≡ true
or_pushed b done needed pushed h k = ground arith

-- A peer that leaves no error has been pulled from well, and pushed to well where that was needed.
no_error :
    (pull : Result PullStats) (push : Option (Result Pushing)) (before : Option Error)
    (needed pushed : Bool)
    → push_error (error_of before pull) push ≡ none
    → (before ≡ none → (not needed || pushed) ≡ true)
    → (is_ok pull ≡ true)
      × ((not (was_needed push || needed) || (was_pushed push || pushed)) ≡ true)
no_error pull none before needed pushed h k =
    let (clean, fine) = left_ok before pull h in (fine, k clean)
no_error pull (some (err e)) before needed pushed h k = absurd (cc)
no_error pull (some (ok p)) before needed pushed h k =
    let (calm, done) = left_ok (error_of before pull) p.pushed h in
    let (clean, fine) = left_ok before pull calm in
    (fine, or_pushed (ltb 0 p.pending) (is_ok p.pushed) needed pushed done (k clean))

no_errors :
    (os : List PeerOutcome)
    → last_error os ≡ none
    → (not (any_of (λ o. was_needed o.push) os) || any_of (λ o. was_pushed o.push) os) ≡ true
no_errors [] h = refl
no_errors (o ∷ os) h = (no_error o.pull o.push (last_error os) _ _ h (no_errors os)).1

both : (a b c : Bool) → a ≡ true → b ≡ true → ((a || c) && b) ≡ true
both a b c h k = ground (arith, h, k)

no_errors-has_succeeded :
    (o : PeerOutcome) (os : List PeerOutcome)
    → last_error (o ∷ os) ≡ none
    → has_succeeded (o ∷ os) ≡ true
no_errors-has_succeeded o os h =
    let (pull, push) =
      no_error o.pull o.push (last_error os) (any_of (λ o. was_needed o.push) os)
        (any_of (λ o. was_pushed o.push) os) h (no_errors os) in
    both _ _ _ pull push

verdict_lem :
    (what : Text) (won : Bool) (last : Option Error)
    → (last ≡ none → won ≡ true)
    → Verdict won last
        (if won then ok tt else err (elim last [ none ↦ message what ∷ [] | some e ↦ e ]))
verdict_lem what true last h = refl
verdict_lem what false none h = absurd (cc (h refl))
verdict_lem what false (some e) h = (e, refl, refl)

succeeded_of :
    (n : ℕ) (os : List PeerOutcome)
    → length os ≡ suc n
    → last_error os ≡ none
    → has_succeeded os ≡ true
succeeded_of n [] h e = absurd (omega arith)
succeeded_of n (o ∷ os) h e = no_errors-has_succeeded o os e

module _ {R : Type 0} (push : Bool) where
  tracked_success :
      (n : ℕ) (s : SyncState R)
      → IsTracked push n s
      → is_success s.progress ≡ has_succeeded s.outcomes
  unfolding is_success
  tracked_success n s h = elim (Bool-cases push) [
    | inl asked ↦ rw (h.pulls, h.requested, h.needs, h.pushes, asked) refl
    | inr unasked ↦ rw (h.pulls, h.requested, h.needs, h.pushes, unasked, h.unasked unasked) refl
  ]

  -- The result of a run over at least one peer, whose progress and last error are those of its outcomes.
  pub sync_result_lem :
      (what : Text) (n : ℕ) (s : SyncState R)
      → IsTracked push (suc n) s
      → IsVerdict (sync_result what s) × (length (sync_result what s).outcomes ≡ suc n)
  unfolding sync_result
  sync_result_lem what n s h = (
    rw (tracked_success (suc n) s h, h.error)
        (verdict_lem what (has_succeeded s.outcomes) (last_error s.outcomes)
          (succeeded_of n s.outcomes h.seen)),
    h.seen,
  )

-- What holds of every state that a step leaves.
abbrev pub Leaves : {R : Type 0} → (SyncState R → Type 0) → Option (SyncState R) → Type 0
Leaves P none = Unit
Leaves P (some s) = P s

module _ {A R : Type 0} (push : Bool) (visit : SyncState R → A → Option (SyncState R))
    (keeps : (n : ℕ) (s : SyncState R) (peer : A)
      → IsTracked push n s
      → Leaves (IsTracked push (suc n)) (visit s peer)) where
  each_peer-Leaves :
      (n m : ℕ) (peers : List A) (s : SyncState R)
      → length peers + n ≡ m
      → IsTracked push n s
      → Leaves (IsTracked push m) (each_peer visit peers s)
  unfolding each_peer
  each_peer-Leaves n m [] s sum h = subst (λ k. IsTracked push k s) (omega arith) h
  each_peer-Leaves n m (peer ∷ peers) s sum h = elim (Option-cases (visit s peer)) [
    | inl e ↦ rw (e, Leaves, each_peer) tt
    | inr (s', e) ↦
        rw (e, Leaves, each_peer)
          (each_peer-Leaves (suc n) m peers s' (omega (arith, sum))
            (subst (Leaves (IsTracked push (suc n))) e (keeps n s peer h)))
  ]

  -- A loop over at least one peer from the start ends in a verdict on all of them.
  pub each_peer-IsVerdict :
      (what : Text) (peer : A) (peers : List A) (local : LocalStore) (remote : R) (s : SyncState R)
      → each_peer visit (peer ∷ peers) (sync_start push local remote) ≡ some s
      → IsVerdict (sync_result what s)
        × (length (sync_result what s).outcomes ≡ length (peer ∷ peers))
  each_peer-IsVerdict what peer peers local remote s found =
      sync_result_lem push what (length peers) s (
        subst (Leaves (IsTracked push (length (peer ∷ peers)))) found (
          each_peer-Leaves 0 _ (peer ∷ peers) (sync_start push local remote) (omega arith)
            (start-IsTracked push local remote)))
