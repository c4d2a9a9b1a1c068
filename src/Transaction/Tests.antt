-- ===== src/Transaction/Tests.antt =====
-- Runs of the transaction model, and its theorems at concrete data.
use hands_free_auto_lab_port.Prelude.{
  ◌≤◌, ◌≢◌, ◌↔◌, inl, inr, err, raised, transaction_state_error, ◌≡◌, refl, ok,
}
use hands_free_auto_lab_port.Transaction.Samples.{marks, t0, at, opened_transaction}
use hands_free_auto_lab_port.Checks.{text}
use hands_free_auto_lab_port.Transaction.Types.{
  completed, verifying, rolling_back, rolled_back, recovery_required, verified, restored, applying,
  pending, installed, TransactionFile, Transaction,
}
use hands_free_auto_lab_port.Transaction.Facts.{IsValid, validate-IsValid}
use hands_free_auto_lab_port.Transaction.Rules.{prepared_active}
use hands_free_auto_lab_port.Transaction.Success.{Succeeds, transition_iff}
use hands_free_auto_lab_port.Transaction.History.{
  Reach, here, next, Later, Reach-Later, Pairs, rank,
}
use hands_free_auto_lab_port.Transaction.Unchanged.{recovery_total, progress_of}
use hands_free_auto_lab_port.Transaction.Built.{build_total}
use hands_free_auto_lab_port.Transaction.Completion.{completion_reachable, rollback_reachable}
use hands_free_auto_lab_port.Transaction.Outcomes.{transition_final, rolled_back_restores}
use hands_free_auto_lab_port.Samples.{toy, sample, even_id}
use hands_free_auto_lab_port.Transaction.Checks.{require_hex_identifier}
use hands_free_auto_lab_port.Transaction.Plan.{validated_proposal}
use hands_free_auto_lab_port.Transaction.Validate.{validate_lab_promotion_transaction}
use hands_free_auto_lab_port.Transaction.Build.{
  prepared_transaction, build_lab_promotion_transaction,
}
use hands_free_auto_lab_port.Transaction.Transition.{
  successor, transition_lab_promotion_transaction,
}

sample_valid : validated_proposal toy sample ≡ ok sample
unfolding opened_transaction
sample_valid = refl

t0_valid : validate_lab_promotion_transaction toy t0 ≡ ok t0
unfolding opened_transaction
t0_valid = refl

step0 :
    transition_lab_promotion_transaction toy t0 applying (marks installed pending)
    ≡ ok (at applying installed pending)
unfolding opened_transaction
step0 = refl

t0-IsValid : IsValid toy t0
t0-IsValid = (validate-IsValid toy t0 t0_valid).1

-- One file installed, both installed, both checked.
step1 :
    transition_lab_promotion_transaction toy
      (at applying installed pending)
      applying
      (marks installed installed)
    ≡ ok (at applying installed installed)
unfolding opened_transaction
step1 = refl

step2 :
    transition_lab_promotion_transaction toy
      (at applying installed installed)
      verifying
      (marks installed installed)
    ≡ ok (at verifying installed installed)
unfolding opened_transaction
step2 = refl

step3 :
    transition_lab_promotion_transaction toy
      (at verifying installed installed)
      verifying
      (marks verified verified)
    ≡ ok (at verifying verified verified)
unfolding opened_transaction
step3 = refl

step4 :
    transition_lab_promotion_transaction toy
      (at verifying verified verified)
      completed
      (marks verified verified)
    ≡ ok (at completed verified verified)
unfolding opened_transaction
step4 = refl

-- One file installed, then taken back.
undo1 :
    transition_lab_promotion_transaction toy
      (at applying installed pending)
      rolling_back
      (marks installed pending)
    ≡ ok (at rolling_back installed pending)
unfolding opened_transaction
undo1 = refl

undo2 :
    transition_lab_promotion_transaction toy
      (at rolling_back installed pending)
      rolling_back
      (marks restored pending)
    ≡ ok (at rolling_back restored pending)
unfolding opened_transaction
undo2 = refl

undo3 :
    transition_lab_promotion_transaction toy
      (at rolling_back restored pending)
      rolled_back
      (marks restored pending)
    ≡ ok (at rolled_back restored pending)
unfolding opened_transaction
undo3 = refl

to_completed : Reach toy t0 (at completed verified verified)
to_completed =
    next completed (marks verified verified)
      (next verifying (marks verified verified)
        (next verifying (marks installed installed)
          (next applying (marks installed installed)
            (next applying (marks installed pending) here step0) step1)
          step2)
        step3)
      step4

to_rolled_back : Reach toy (at applying installed pending) (at rolled_back restored pending)
to_rolled_back =
    next rolled_back (marks restored pending)
      (next rolling_back (marks restored pending)
        (next rolling_back (marks installed pending) here undo1) undo2)
      undo3

-- A file that is not installed cannot be marked as verified.
skipped_install :
    transition_lab_promotion_transaction toy t0 applying (marks verified pending)
    ≡ err (raised transaction_state_error "docs/new.txt" "illegal file progress transition")
unfolding opened_transaction
skipped_install = refl

transition_iff_example :
    (transition_lab_promotion_transaction toy t0 applying (marks installed pending)
      ≡ ok (at applying installed pending))
    ↔ Succeeds toy t0 applying (marks installed pending) (at applying installed pending)
transition_iff_example =
    transition_iff toy t0 applying (marks installed pending) (at applying installed pending)

rolled_back_restores_example :
    Pairs
      (λ (f g : TransactionFile). 1 ≤ rank f.progress → g.progress ≡ restored)
      (at applying installed pending).files
      (at rolled_back restored pending).files
unfolding successor prepared_transaction
rolled_back_restores_example =
    rolled_back_restores toy to_rolled_back (refl, (inr refl, (inl refl, tt))) refl

Reach-Later_example : Later toy t0 (at completed verified verified)
Reach-Later_example = Reach-Later toy to_completed

transition_final_example :
    transition_lab_promotion_transaction toy
      (at completed verified verified)
      applying
      (marks verified verified)
    ≢ ok t0
unfolding successor prepared_transaction
transition_final_example =
    transition_final toy (at completed verified verified) applying (marks verified verified) t0
      (inl refl)

recovery_total_example :
    transition_lab_promotion_transaction toy t0 recovery_required (progress_of t0.files)
    ≡ ok (successor toy t0 recovery_required t0.files)
unfolding successor prepared_transaction
recovery_total_example = recovery_total toy t0 t0-IsValid prepared_active

run_id_hex : require_hex_identifier "run_id" (text even_id) ≡ ok even_id
unfolding opened_transaction
run_id_hex = refl

build_total_example : build_lab_promotion_transaction toy sample even_id ≡ ok t0
build_total_example = build_total toy sample even_id sample_valid run_id_hex

completion_reachable_example :
    (u : Transaction) × IsValid toy u × Reach toy t0 u × (u.state ≡ completed)
unfolding prepared_transaction
completion_reachable_example = completion_reachable toy t0 t0-IsValid (inl refl)

half_installed :
    validate_lab_promotion_transaction toy (at applying installed pending)
    ≡ ok (at applying installed pending)
unfolding opened_transaction
half_installed = refl

rollback_reachable_example :
    (u : Transaction) × IsValid toy u
    × Reach toy (at applying installed pending) u
    × (u.state ≡ rolled_back)
unfolding successor
rollback_reachable_example =
    rollback_reachable toy (at applying installed pending)
      (validate-IsValid toy (at applying installed pending) half_installed).1 (inl refl)
