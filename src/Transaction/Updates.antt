-- ===== src/Transaction/Updates.antt =====
-- What one transition leaves alone in the files: all but their progress.
use mathlib.Core.Path.{subst}
use hands_free_auto_lab_port.Prelude.{
  ℤ, true, String, ◌||◌, ok-injective, ◌≡◌, refl, ap, List, [], ◌∷◌, map, some, lookup, ok,
  >>=-eq-ok, traverse, arith, is_nil,
}
use hands_free_auto_lab_port.Checks.{Sha256}
use hands_free_auto_lab_port.Transaction.Types.{
  Risk, is_known_progress, Progress, TransactionFile, proposal_file_from_transaction_file,
}
use hands_free_auto_lab_port.Transaction.Identity.{
  transaction_identity_object, derive_risk, has_add, is_add, transaction_file_objects,
}
use hands_free_auto_lab_port.Transaction.Validate.{validate_transaction_file}
use hands_free_auto_lab_port.Transaction.Transition.{check_progress, successor_files, get_progress}
use hands_free_auto_lab_port.Transaction.Facts.{paths}
use hands_free_auto_lab_port.Transaction.Rules.{
  ◌⇝◌, stay, install, Updates, done, update, check_progress-⇝, ⇝-check_progress,
}

module _ {d : List (String × Progress)} where
  pub Updates-plan :
      {fs gs : List TransactionFile}
      → Updates d fs gs
      → map proposal_file_from_transaction_file gs ≡ map proposal_file_from_transaction_file fs
  unfolding proposal_file_from_transaction_file
  Updates-plan done = refl
  Updates-plan (update p e m u) = cc (Updates-plan u)

  pub Updates-paths : {fs gs : List TransactionFile} → Updates d fs gs → paths gs ≡ paths fs
  Updates-paths done = refl
  Updates-paths (update p e m u) = cc (Updates-paths u)

  Updates-has_add : {fs gs : List TransactionFile} → Updates d fs gs → has_add gs ≡ has_add fs
  unfolding has_add
  Updates-has_add done = refl
  Updates-has_add (update {f = f} p e m u) = ap (λ b. is_add f.operation || b) (Updates-has_add u)

  pub Updates-derive_risk :
      {fs gs : List TransactionFile} → Updates d fs gs → derive_risk gs ≡ derive_risk fs
  unfolding derive_risk
  Updates-derive_risk u = rw (Updates-has_add u)

  Updates-transaction_file_objects :
      {fs gs : List TransactionFile}
      → Updates d fs gs
      → transaction_file_objects gs ≡ transaction_file_objects fs
  unfolding transaction_file_objects
  Updates-transaction_file_objects done = refl
  Updates-transaction_file_objects (update p e m u) = cc (Updates-transaction_file_objects u)

  pub Updates-transaction_identity_object :
      (p c r path : String) (device inode : ℤ) (b h : String) (risk : Risk)
      {fs gs : List TransactionFile}
      → Updates d fs gs
      → transaction_identity_object p c r path device inode b h risk gs
        ≡ transaction_identity_object p c r path device inode b h risk fs
  unfolding transaction_identity_object
  Updates-transaction_identity_object p c r path device inode b h risk u =
      rw (Updates-transaction_file_objects u)

  pub Updates-is_nil : {fs gs : List TransactionFile} → Updates d fs gs → is_nil gs ≡ is_nil fs
  Updates-is_nil done = refl
  Updates-is_nil (update p e m u) = refl

known_of_⇝ : {p q : Progress} → p ⇝ q → is_known_progress q ≡ true
known_of_⇝ (stay k) = k
known_of_⇝ install = refl
known_of_⇝ _ = refl

module _ (H : Sha256) where
  validate_file_moved :
      (f : TransactionFile) (p : Progress)
      → validate_transaction_file H f ≡ ok f
      → is_known_progress p ≡ true
      → validate_transaction_file H (record f { progress = p }) ≡ ok (record f { progress = p })
  unfolding validate_transaction_file proposal_file_from_transaction_file
  validate_file_moved f p h k = ground arith

  pub Updates-traverse :
      {d : List (String × Progress)} {fs gs : List TransactionFile}
      → Updates d fs gs
      → traverse (validate_transaction_file H) fs ≡ ok fs
      → traverse (validate_transaction_file H) gs ≡ ok gs
  unfolding traverse
  Updates-traverse done h = refl
  Updates-traverse (update {f = f} {fs = fs} p e m u) h =
      let (g, eg, h') = >>=-eq-ok (validate_transaction_file H f) _ h in
      let (gs', egs, same) = >>=-eq-ok (traverse (validate_transaction_file H) fs) _ h' in
      rw (validate_file_moved f p (cc (same, eg)) (known_of_⇝ m))
        (rw (Updates-traverse u (cc (same, egs))))

module _ (d : List (String × Progress)) where
  get_progress-lookup :
      (path : String) (p : Progress) → get_progress path d ≡ ok p → lookup path d ≡ some p
  unfolding get_progress
  get_progress-lookup path p h = ground arith

  lookup-get_progress :
      (path : String) (p : Progress) → lookup path d ≡ some p → get_progress path d ≡ ok p
  unfolding get_progress
  lookup-get_progress path p h = ground arith

  pub successor_files-Updates :
      (fs : List TransactionFile) {gs : List TransactionFile}
      → successor_files d fs ≡ ok gs
      → Updates d fs gs
  unfolding successor_files
  successor_files-Updates [] h = subst (λ xs. Updates d [] xs) (ok-injective h) done
  successor_files-Updates (f ∷ fs) h =
      let (p, ep, h₁) = >>=-eq-ok (get_progress f.path d) _ h in
      let (_, ec, h₂) = >>=-eq-ok (check_progress f.path f.progress p) _ h₁ in
      let (rest, er, h₃) = >>=-eq-ok (successor_files d fs) _ h₂ in
      subst (λ xs. Updates d (f ∷ fs) xs) (ok-injective h₃)
        (update p (get_progress-lookup f.path p ep) (check_progress-⇝ f.path f.progress p ec)
          (successor_files-Updates fs er))

  pub Updates-successor_files :
      {fs gs : List TransactionFile} → Updates d fs gs → successor_files d fs ≡ ok gs
  unfolding successor_files
  Updates-successor_files done = refl
  Updates-successor_files (update {f = f} p e m u) =
      rw (lookup-get_progress f.path p e)
        (rw (⇝-check_progress f.path m) (rw (Updates-successor_files u)))
