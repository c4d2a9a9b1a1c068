-- ===== src/Transaction/Completion.antt =====
-- Chains of transitions to COMPLETED and to ROLLED_BACK
-- (`transition_lab_promotion_transaction` of lab_promotion_transaction_state.py).
use mathlib.Core.Path.{subst}
use hands_free_auto_lab_port.Prelude.{
  String, ◌≡◌, refl, sym, ap, ◌∙◌, ◌⊎◌, inl, inr, true, List, [], ◌∷◌, All, ok, distinct, arith,
}
use hands_free_auto_lab_port.Checks.{Sha256}
use hands_free_auto_lab_port.Transaction.Types.{
  is_known_state, State, prepared, applying, verifying, completed, rolling_back, rolled_back,
  Progress, pending, installed, verified, restored, is_known_progress, TransactionFile, Transaction,
}
use hands_free_auto_lab_port.Transaction.Transition.{
  successor, transition_lab_promotion_transaction,
}
use hands_free_auto_lab_port.Transaction.Facts.{paths, IsValid}
use hands_free_auto_lab_port.Transaction.Rules.{
  ◌⟶◌, start, applied, complete, undo_applying, undo_verifying, undo_more, undone, ◌⇝◌, stay,
  install, verify, restore_installed, restore_verified, Updates, done, update, Permitted,
  Permitted-permits, Holds, validate_state_invariants-Holds,
}
use hands_free_auto_lab_port.Transaction.Success.{Succeeds-transition, successor-IsValid}
use hands_free_auto_lab_port.Transaction.History.{Reach, here, next}
use hands_free_auto_lab_port.Transaction.Unchanged.{
  progress_of, keys-progress_of, same_set_self, Agrees, Agrees-progress_of,
}

-- every file's progress moved by a function
abbrev move : (Progress → Progress) → List TransactionFile → List TransactionFile
move g [] = []
move g (f ∷ fs) = record f { progress = g f.progress } ∷ move g fs

paths-move : (g : Progress → Progress) (fs : List TransactionFile) → paths (move g fs) ≡ paths fs
paths-move g [] = refl
paths-move g (f ∷ fs) = cc (paths-move g fs)

move-Updates :
    (g : Progress → Progress) (d : List (String × Progress)) (fs : List TransactionFile)
    → Agrees d (move g fs)
    → All (λ (f : TransactionFile). f.progress ⇝ g f.progress) fs
    → Updates d fs (move g fs)
move-Updates g d [] a m = done
move-Updates g d (f ∷ fs) a m = update (g f.progress) a.0 m.0 (move-Updates g d fs a.1 m.1)

-- what holds of each mark that a state permits
module _ (a s : State) (g : Progress → Progress)
    (moves : (p : Progress) → Permitted a p → (p ⇝ g p) × Permitted s (g p)) where
  All-move :
      (fs : List TransactionFile)
      → All (λ (f : TransactionFile). Permitted a f.progress) fs
      → All (λ (f : TransactionFile). f.progress ⇝ g f.progress) fs
        × All (λ (f : TransactionFile). Permitted s f.progress) (move g fs)
  All-move [] h = (tt, tt)
  All-move (f ∷ fs) h =
      let (m, k) = moves f.progress h.0 in let (ms, ks) = All-move fs h.1 in ((m, ms), (k, ks))

-- what rolling back makes of a mark
abbrev undo : Progress → Progress
undo pending = pending
undo _ = restored

undo-⇝ : (p : Progress) → is_known_progress p ≡ true → p ⇝ undo p
undo-⇝ pending k = stay refl
undo-⇝ installed k = restore_installed
undo-⇝ verified k = restore_verified
undo-⇝ restored k = stay refl
undo-⇝ (Progress.unknown s) k = cc

undo_known :
    (p : Progress)
    → is_known_progress p ≡ true
    → (is_known_progress (undo p) ≡ true) × Permitted rolled_back (undo p)
undo_known p k = ground arith

install_marks :
    (p : Progress) → Permitted applying p → (p ⇝ installed) × Permitted verifying installed
install_marks pending k = (install, inl refl)
install_marks installed k = (stay refl, inl refl)
install_marks p k = absurd (ground arith)

verify_marks :
    (p : Progress) → Permitted verifying p → (p ⇝ verified) × Permitted completed verified
verify_marks installed k = (verify, refl)
verify_marks verified k = (stay refl, refl)
verify_marks p k = absurd (ground arith)

start_marks : (p : Progress) → Permitted prepared p → (p ⇝ installed) × Permitted applying installed
start_marks pending k = (install, inr refl)
start_marks p k = absurd (ground arith)

module _ (H : Sha256) where
  -- A step in which every file moves as a function says.
  move_step :
      (g : Progress → Progress) (t : Transaction) (s : State)
      → IsValid H t
      → t.state ⟶ s
      → All (λ (f : TransactionFile). f.progress ⇝ g f.progress) t.files
      → Holds s (move g t.files)
      → (transition_lab_promotion_transaction H t s (progress_of (move g t.files))
          ≡ ok (successor H t s (move g t.files)))
        × IsValid H (successor H t s (move g t.files))
  unfolding successor
  move_step g t s v step m h =
      let gs = move g t.files in
      let agrees = Agrees-progress_of gs (ap distinct (paths-move g t.files) ∙ v.distinct_paths) in
      let u = move-Updates g (progress_of gs) t.files agrees m in
      (
        Succeeds-transition H t s (progress_of gs) (successor H t s gs) (record {
          valid = v;
          step = step;
          all_paths =
              rw (keys-progress_of gs, paths-move g t.files) (same_set_self (paths t.files));
          updates = u;
          holds = h;
          result = refl;
        }),
        successor-IsValid H t s gs v u h,
      )

  -- A transaction that goes on from `t`, is valid, and has come to a state.
  abbrev Comes : Transaction → State → Type 0
  Comes t s = (u : Transaction) × IsValid H u × Reach H t u × (u.state ≡ s)

  Reach-append : {t u w : Transaction} → Reach H t u → Reach H u w → Reach H t w
  Reach-append r here = r
  Reach-append r (next s d q h) = next s d (Reach-append r q) h

  leg :
      {a s : State} (g : Progress → Progress) (t : Transaction)
      → IsValid H t
      → t.state ≡ a
      → a ⟶ s
      → is_known_state s ≡ true
      → ((p : Progress) → Permitted a p → (p ⇝ g p) × Permitted s (g p))
      → Comes t s
  unfolding successor
  leg {a} {s} g t v e step known moves =
      let permitted =
        subst (λ x. All (λ (f : TransactionFile). Permitted x f.progress) t.files) e
          (validate_state_invariants-Holds t.state t.files v.invariants).1 in
      let (m, k) = All-move a s g moves t.files permitted in
      let (h, v') = move_step g t s v (subst (λ x. x ⟶ s) (sym e) step) m (known, k) in
      (successor H t s (move g t.files), v', next s (progress_of (move g t.files)) here h, refl)

  on :
      {t : Transaction} {a s : State}
      → Comes t a
      → ((u : Transaction) → IsValid H u → u.state ≡ a → Comes u s)
      → Comes t s
  on (u, v, r, e) f = let (w, v', q, e') = f u v e in (w, v', Reach-append r q, e')

  from_verifying : (t : Transaction) → IsValid H t → t.state ≡ verifying → Comes t completed
  from_verifying t v e = leg (λ _. verified) t v e complete refl verify_marks

  from_applying : (t : Transaction) → IsValid H t → t.state ≡ applying → Comes t completed
  from_applying t v e = on (leg (λ _. installed) t v e applied refl install_marks) from_verifying

  from_prepared : (t : Transaction) → IsValid H t → t.state ≡ prepared → Comes t completed
  from_prepared t v e = on (leg (λ _. installed) t v e start refl start_marks) from_applying

  from_rolling_back : (t : Transaction) → IsValid H t → t.state ≡ rolling_back → Comes t rolled_back
  from_rolling_back t v e = leg undo t v e undone refl (λ p k. (undo-⇝ p k, (undo_known p k).1))

  -- Rolling back from a state whose files have a known progress.
  roll_back :
      {a : State} (t : Transaction)
      → IsValid H t
      → t.state ≡ a
      → a ⟶ rolling_back
      → Comes t rolled_back
  roll_back {a} t v e step =
      on
        (leg undo t v e step refl (λ p k.
          let known = (Permitted-permits a p k).0 in (undo-⇝ p known, (undo_known p known).0)))
        from_rolling_back

  -- From every valid transaction in PREPARED, APPLYING or VERIFYING a chain of transitions leads
  -- to a valid one in COMPLETED.
  pub completion_reachable :
      (t : Transaction)
      → IsValid H t
      → (t.state ≡ prepared) ⊎ (t.state ≡ applying) ⊎ (t.state ≡ verifying)
      → (u : Transaction) × IsValid H u × Reach H t u × (u.state ≡ completed)
  completion_reachable t v (inl e) = from_prepared t v e
  completion_reachable t v (inr (inl e)) = from_applying t v e
  completion_reachable t v (inr (inr e)) = from_verifying t v e

  -- From every valid transaction in APPLYING, VERIFYING or ROLLING_BACK a chain of transitions
  -- leads to a valid one in ROLLED_BACK.
  pub rollback_reachable :
      (t : Transaction)
      → IsValid H t
      → (t.state ≡ applying) ⊎ (t.state ≡ verifying) ⊎ (t.state ≡ rolling_back)
      → (u : Transaction) × IsValid H u × Reach H t u × (u.state ≡ rolled_back)
  rollback_reachable t v (inl e) = roll_back t v e undo_applying
  rollback_reachable t v (inr (inl e)) = roll_back t v e undo_verifying
  rollback_reachable t v (inr (inr e)) = roll_back t v e undo_more
