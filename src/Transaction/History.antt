-- ===== src/Transaction/History.antt =====
-- Chains of transitions: what every later snapshot of a transaction owes to an earlier one.
use mathlib.Core.Path.{subst}
use hands_free_auto_lab_port.Prelude.{
  ℕ, ◌≤◌, String, ◌≡◌, refl, sym, ◌∙◌, List, [], ◌∷◌, map, ok, arith,
}
use hands_free_auto_lab_port.Checks.{Sha256}
use hands_free_auto_lab_port.Proposal.{ProposalFile}
use hands_free_auto_lab_port.Transaction.Types.{
  State, Progress, pending, installed, verified, restored, TransactionFile, Transaction,
  proposal_file_from_transaction_file,
}
use hands_free_auto_lab_port.Transaction.Transition.{
  successor, transition_lab_promotion_transaction,
}
use hands_free_auto_lab_port.Transaction.Rules.{◌⇝◌, stay, install, Updates, done, update, Holds}
use hands_free_auto_lab_port.Transaction.Updates.{Updates-plan}
use hands_free_auto_lab_port.Transaction.Success.{transition-Succeeds, state-Succeeds}

-- how far a file has come
abbrev pub rank : Progress → ℕ
rank pending = 0
rank installed = 1
rank verified = 2
rank restored = 3
rank (Progress.unknown _) = 0

-- A relation that holds of two lists place by place.
abbrev pub Pairs {ℓ} : {A : Type ℓ} → (A → A → Type 0) → List A → List A → Type 0
Pairs P [] [] = Unit
Pairs P (x ∷ xs) (y ∷ ys) = P x y × Pairs P xs ys
Pairs P [] (y ∷ ys) = ⊥
Pairs P (x ∷ xs) [] = ⊥

-- Everything that the transaction was built from.
abbrev pub plan : Transaction → List ProposalFile
plan t = map proposal_file_from_transaction_file t.files

-- A file after some transitions has come as far, or further.
abbrev pub Further : TransactionFile → TransactionFile → Type 0
Further f g = rank f.progress ≤ rank g.progress

⇝-rank : {p q : Progress} → p ⇝ q → rank p ≤ rank q
⇝-rank (stay {p = p} k) = omega arith
⇝-rank install = omega arith
⇝-rank _ = omega arith

Updates-Further :
    {d : List (String × Progress)} {fs gs : List TransactionFile}
    → Updates d fs gs
    → Pairs Further fs gs
Updates-Further done = tt
Updates-Further (update p e m u) = (⇝-rank m, Updates-Further u)

Further-refl : (fs : List TransactionFile) → Pairs Further fs fs
Further-refl [] = tt
Further-refl (f ∷ fs) = (omega arith, Further-refl fs)

Further-trans :
    (fs gs hs : List TransactionFile)
    → Pairs Further fs gs
    → Pairs Further gs hs
    → Pairs Further fs hs
Further-trans [] [] [] p q = tt
Further-trans [] [] (h ∷ hs) p q = absurd q
Further-trans [] (g ∷ gs) hs p q = absurd p
Further-trans (f ∷ fs) [] hs p q = absurd p
Further-trans (f ∷ fs) (g ∷ gs) [] p q = absurd q
Further-trans (f ∷ fs) (g ∷ gs) (h ∷ hs) p q = (omega arith, Further-trans fs gs hs p.1 q.1)

module _ (H : Sha256) where
  -- One transition that did not raise, or a chain of them.
  pub data Reach (t : Transaction) : Transaction → Type 0 where
    here : Reach t t
    next :
        {u w : Transaction} (s : State) (d : List (String × Progress))
        → Reach t u
        → transition_lab_promotion_transaction H u s d ≡ ok w
        → Reach t w

  -- What stays, and how the files move, from `t` to `u`.
  pub record Later (t u : Transaction) : Type 0 where
    pub transaction_id : u.transaction_id ≡ t.transaction_id
    pub proposal_id : u.proposal_id ≡ t.proposal_id
    pub candidate_id : u.candidate_id ≡ t.candidate_id
    pub run_id : u.run_id ≡ t.run_id
    pub repository_path : u.repository_path ≡ t.repository_path
    pub repository_device : u.repository_device ≡ t.repository_device
    pub repository_inode : u.repository_inode ≡ t.repository_inode
    pub branch : u.branch ≡ t.branch
    pub head : u.head ≡ t.head
    pub risk_classification : u.risk_classification ≡ t.risk_classification
    pub same_plan : plan u ≡ plan t
    pub further : Pairs Further t.files u.files

  successor-Later :
      (t : Transaction) (s : State) {d : List (String × Progress)} (gs : List TransactionFile)
      → Updates d t.files gs
      → Later t (successor H t s gs)
  unfolding successor
  successor-Later t s gs u = record {
    transaction_id = refl;
    proposal_id = refl;
    candidate_id = refl;
    run_id = refl;
    repository_path = refl;
    repository_device = refl;
    repository_inode = refl;
    branch = refl;
    head = refl;
    risk_classification = refl;
    same_plan = Updates-plan u;
    further = Updates-Further u;
  }

  pub transition-Later :
      (t : Transaction) (s : State) (d : List (String × Progress)) {u : Transaction}
      → transition_lab_promotion_transaction H t s d ≡ ok u
      → Later t u
  transition-Later t s d {u} h =
      let k = transition-Succeeds H t s d u h in
      subst (λ x. Later t x) (sym k.result) (successor-Later t s u.files k.updates)

  Later-trans : {t u w : Transaction} → Later t u → Later u w → Later t w
  Later-trans {t} {u} {w} a b = record {
    transaction_id = b.transaction_id ∙ a.transaction_id;
    proposal_id = b.proposal_id ∙ a.proposal_id;
    candidate_id = b.candidate_id ∙ a.candidate_id;
    run_id = b.run_id ∙ a.run_id;
    repository_path = b.repository_path ∙ a.repository_path;
    repository_device = b.repository_device ∙ a.repository_device;
    repository_inode = b.repository_inode ∙ a.repository_inode;
    branch = b.branch ∙ a.branch;
    head = b.head ∙ a.head;
    risk_classification = b.risk_classification ∙ a.risk_classification;
    same_plan = b.same_plan ∙ a.same_plan;
    further = Further-trans t.files u.files w.files a.further b.further;
  }

  -- Whatever chain of transitions leads from one snapshot to another: the transaction's identities,
  -- its repository, branch, HEAD, risk and plan of files are the same, and every file's progress
  -- has moved forward or not at all, in the order PENDING, INSTALLED, VERIFIED, RESTORED.
  pub Reach-Later : {t u : Transaction} → Reach t u → Later t u
  Reach-Later {t} here = record {
    transaction_id = refl;
    proposal_id = refl;
    candidate_id = refl;
    run_id = refl;
    repository_path = refl;
    repository_device = refl;
    repository_inode = refl;
    branch = refl;
    head = refl;
    risk_classification = refl;
    same_plan = refl;
    further = Further-refl t.files;
  }
  Reach-Later (next {u = u} s d r e) = Later-trans (Reach-Later r) (transition-Later u s d e)

  -- Every snapshot that a chain reaches satisfies what its state says of its files.
  pub Reach-Holds : {t u : Transaction} → Reach t u → Holds t.state t.files → Holds u.state u.files
  Reach-Holds here h = h
  Reach-Holds (next {u = u} {w = w} s d r e) h =
      let k = transition-Succeeds H u s d w e in
      subst (λ x. Holds x w.files) (sym (state-Succeeds H k)) k.holds
