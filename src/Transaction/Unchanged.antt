-- ===== src/Transaction/Unchanged.antt =====
-- Transitions that leave every file's progress as it is: `_append_transition` with `_progress` of
-- the current snapshot (src/hands_free_auto_lab/lab_promotion_rollback_executor.py).
use hands_free_auto_lab_port.Prelude.{
  String, ◌≡◌, refl, true, false, some, List, [], ◌∷◌, All, ok, all, contains, distinct, same_set,
  lookup, keys, eq_iff, eq_refl, arith,
}
use hands_free_auto_lab_port.Checks.{Sha256}
use hands_free_auto_lab_port.Transaction.Types.{
  State, recovery_required, Progress, is_known_progress, TransactionFile, Transaction,
}
use hands_free_auto_lab_port.Transaction.Transition.{
  successor, transition_lab_promotion_transaction,
}
use hands_free_auto_lab_port.Transaction.Facts.{paths, IsValid}
use hands_free_auto_lab_port.Transaction.Rules.{
  ◌⟶◌, give_up, IsActive, stay, Updates, done, update, Permitted, Permitted-permits, Holds,
  validate_state_invariants-Holds,
}
use hands_free_auto_lab_port.Transaction.Success.{Succeeds-transition}

-- `_progress`: the dictionary of the files' progress by path
unfoldable pub progress_of : List TransactionFile → List (String × Progress)
progress_of [] = []
progress_of (f ∷ fs) = (f.path, f.progress) ∷ progress_of fs

pub keys-progress_of : (fs : List TransactionFile) → keys (progress_of fs) ≡ paths fs
unfolding progress_of
keys-progress_of [] = refl
keys-progress_of (f ∷ fs) = cc (keys-progress_of fs)

all-contains-cons :
    (y : String) (ys xs : List String)
    → all (λ x. contains x ys) xs ≡ true
    → all (λ x. contains x (y ∷ ys)) xs ≡ true
unfolding all contains
all-contains-cons y ys [] h = refl
all-contains-cons y ys (x ∷ xs) h = ground (arith, all-contains-cons y ys xs)

all-contains_self : (xs : List String) → all (λ x. contains x xs) xs ≡ true
unfolding all contains
all-contains_self [] = refl
all-contains_self (x ∷ xs) = rw (eq_refl x) (all-contains-cons x xs xs (all-contains_self xs))

pub same_set_self : (xs : List String) → same_set xs xs ≡ true
unfolding same_set
same_set_self xs = rw (all-contains_self xs)

-- The dictionary gives each file its own progress.
abbrev pub Agrees : List (String × Progress) → List TransactionFile → Type 0
Agrees d = All (λ (g : TransactionFile). lookup g.path d ≡ some g.progress)

Agrees-cons :
    (k : String) (p : Progress) (d : List (String × Progress)) (fs : List TransactionFile)
    → contains k (paths fs) ≡ false
    → Agrees d fs
    → Agrees ((k, p) ∷ d) fs
unfolding contains lookup
Agrees-cons k p d [] c a = tt
Agrees-cons k p d (g ∷ fs) c a =
    (ground (arith, eq_iff k g.path, eq_iff g.path k), Agrees-cons k p d fs (ground arith) a.1)

pub Agrees-progress_of :
    (fs : List TransactionFile) → distinct (paths fs) ≡ true → Agrees (progress_of fs) fs
unfolding distinct progress_of
Agrees-progress_of [] h = tt
Agrees-progress_of (f ∷ fs) h = (
  unfold lookup in rw (eq_refl f.path),
  Agrees-cons f.path f.progress (progress_of fs) fs (ground arith)
      (Agrees-progress_of fs (ground arith)),
)

Agrees-Updates :
    (s : State) (d : List (String × Progress)) (fs : List TransactionFile)
    → All (λ (f : TransactionFile). Permitted s f.progress) fs
    → Agrees d fs
    → Updates d fs fs
Agrees-Updates s d [] h a = done
Agrees-Updates s d (f ∷ fs) h a =
    update f.progress a.0 (stay (Permitted-permits s f.progress h.0).0)
      (Agrees-Updates s d fs h.1 a.1)

module _ (H : Sha256) (t : Transaction) (v : IsValid H t) where
  -- Any step of the table whose rule the files satisfy already can be taken with no progress.
  pub unchanged_total :
      (s : State)
      → t.state ⟶ s
      → Holds s t.files
      → transition_lab_promotion_transaction H t s (progress_of t.files)
        ≡ ok (successor H t s t.files)
  unfolding successor
  unchanged_total s step h =
      Succeeds-transition H t s (progress_of t.files) (successor H t s t.files) (record {
        valid = v;
        step = step;
        all_paths = rw keys-progress_of (same_set_self (paths t.files));
        updates =
            Agrees-Updates s (progress_of t.files) t.files h.1
              (Agrees-progress_of t.files v.distinct_paths);
        holds = h;
        result = refl;
      })

  now : Holds t.state t.files
  now = validate_state_invariants-Holds t.state t.files v.invariants

  known_files :
      (s : State) (fs : List TransactionFile)
      → All (λ (f : TransactionFile). Permitted s f.progress) fs
      → All (λ (f : TransactionFile). is_known_progress f.progress ≡ true) fs
  known_files s [] h = tt
  known_files s (f ∷ fs) h = ((Permitted-permits s f.progress h.0).0, known_files s fs h.1)

  -- From PREPARED, APPLYING, VERIFYING and ROLLING_BACK a valid transaction can always be put
  -- into RECOVERY_REQUIRED with the progress that it has: closing down never fails.
  pub recovery_total :
      IsActive t.state
      → transition_lab_promotion_transaction H t recovery_required (progress_of t.files)
        ≡ ok (successor H t recovery_required t.files)
  recovery_total a =
      unchanged_total recovery_required (give_up a) (refl, known_files t.state t.files now.1)
