-- ===== src/Transaction/Outcomes.antt =====
-- How transactions end (`transition_lab_promotion_transaction` of
-- lab_promotion_transaction_state.py): the final states, COMPLETED and ROLLED_BACK.
use mathlib.Core.Path.{subst}
use hands_free_auto_lab_port.Prelude.{◌≤◌, String, ◌≡◌, ◌≢◌, ◌⊎◌, List, [], ◌∷◌, All, ok, arith}
use hands_free_auto_lab_port.Checks.{Sha256}
use hands_free_auto_lab_port.Transaction.Types.{
  State, completed, rolled_back, recovery_required, Progress, restored, TransactionFile,
  Transaction,
}
use hands_free_auto_lab_port.Transaction.Transition.{transition_lab_promotion_transaction}
use hands_free_auto_lab_port.Transaction.Rules.{
  ◌⟶◌, start, give_up, prepared_active, applying_active, verifying_active, rolling_back_active,
  Permitted, Holds,
}
use hands_free_auto_lab_port.Transaction.Success.{transition-Succeeds}
use hands_free_auto_lab_port.Transaction.History.{
  rank, Pairs, Further, Reach, Reach-Later, Reach-Holds,
}

abbrev pub IsFinal : State → Type 0
IsFinal s = (s ≡ completed) ⊎ (s ≡ rolled_back) ⊎ (s ≡ recovery_required)

out_of_final : {a b : State} → a ⟶ b → IsFinal a → ⊥
out_of_final start e = ground arith
out_of_final (give_up prepared_active) e = ground arith
out_of_final (give_up applying_active) e = ground arith
out_of_final (give_up verifying_active) e = ground arith
out_of_final (give_up rolling_back_active) e = ground arith
out_of_final _ e = ground arith

restored_of_rank :
    (fs gs : List TransactionFile)
    → Pairs Further fs gs
    → All (λ (g : TransactionFile). Permitted rolled_back g.progress) gs
    → Pairs (λ (f g : TransactionFile). 1 ≤ rank f.progress → g.progress ≡ restored) fs gs
restored_of_rank [] [] p h = tt
restored_of_rank [] (g ∷ gs) p h = absurd p
restored_of_rank (f ∷ fs) [] p h = absurd p
restored_of_rank (f ∷ fs) (g ∷ gs) p h = (λ r. ground arith, restored_of_rank fs gs p.1 h.1)

module _ (H : Sha256) where
  -- COMPLETED, ROLLED_BACK and RECOVERY_REQUIRED have no successor, whatever is asked for.
  pub transition_final :
      (t : Transaction) (s : State) (d : List (String × Progress)) (u : Transaction)
      → IsFinal t.state
      → transition_lab_promotion_transaction H t s d ≢ ok u
  transition_final t s d u f h = out_of_final (transition-Succeeds H t s d u h).step f

  -- If the files of `w` satisfy the rule of its state and a chain of transitions leads from `w` to
  -- ROLLED_BACK, each file that was INSTALLED, VERIFIED or RESTORED at `w` is RESTORED in the end.
  pub rolled_back_restores :
      {w u : Transaction}
      → Reach H w u
      → Holds w.state w.files
      → u.state ≡ rolled_back
      → Pairs
          (λ (f g : TransactionFile). 1 ≤ rank f.progress → g.progress ≡ restored)
          w.files
          u.files
  rolled_back_restores {w} {u} r h e = restored_of_rank w.files u.files (Reach-Later H r).further (
      subst (λ x. All (λ (g : TransactionFile). Permitted x g.progress) u.files) e
        (Reach-Holds H r h).1)
