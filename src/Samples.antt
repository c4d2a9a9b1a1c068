-- ===== src/Samples.antt =====
-- Test data: a digest that depends on the data, a proposal of two files, and identifiers.
use hands_free_auto_lab_port.Prelude.{
  encode, ℕ, ◌+◌, ◌%◌, String, ◌≡◌, refl, Bool, true, false, none, some, List, [], ◌∷◌, pos, ◌==◌,
}
use native.Mathlib.Decide.{dec_lt, dec_le}
use native.Mathlib.Bridge.{IsLe}
use hands_free_auto_lab_port.Json.{canonical_json_bytes}
use hands_free_auto_lab_port.Prelude.{
  codes, is_empty, all_codes, is_hex_lower, contains_code, starts_with_code, split, utf8_code, utf8,
  insert_sorted, sorted_by, same_list, is_sorted, any, all, contains, distinct, same_set, lookup,
  traverse,
}
use hands_free_auto_lab_port.Proposal.{
  proposal_identity_object, identity, operation_name, domain, file_object, file_objects,
}
use hands_free_auto_lab_port.Checks.{Sha256, is_hex}
use hands_free_auto_lab_port.Proposal.{
  add, modify, ProposalFile, Proposal, promotion_proposal_component,
  promotion_proposal_schema_version,
}

abbrev pub total : List ℕ → ℕ
total [] = 0
total (x ∷ xs) = x + total xs

abbrev pub even_id : String
even_id = "0123456789abcdef0123456789abcdef0123456789abcdef0123456789abcdef"

abbrev pub odd_id : String
odd_id = "fedcba9876543210fedcba9876543210fedcba9876543210fedcba9876543210"

abbrev pub pick : Bool → String
pick true = even_id
pick false = odd_id

pub pick-IsHex : (b : Bool) → is_hex 64 (pick b) ≡ true
unfolding is_hex
pick-IsHex true = refl
pick-IsHex false = refl

-- a checksum in the form of a digest
abbrev pub toy : Sha256
toy = record {
  hexdigest = λ b. pick (total b % 2 == 0);
  hexdigest-IsHex = λ b. pick-IsHex (total b % 2 == 0);
}

abbrev added : ProposalFile
added = record {
  operation = add;
  path = "docs/new.txt";
  before_exists = false;
  before_bytes = none;
  before_sha256 = none;
  before_mode = none;
  after_bytes = pos 2;
  after_sha256 = odd_id;
  after_mode = pos 0o644;
  after_content = "hi";
  source_kind = "coding_candidate";
  source_id = even_id;
}

abbrev modified : ProposalFile
modified = record {
  operation = modify;
  path = "src/main.py";
  before_exists = true;
  before_bytes = some (pos 10);
  before_sha256 = some odd_id;
  before_mode = some (pos 0o755);
  after_bytes = pos 3;
  after_sha256 = even_id;
  after_mode = pos 0o755;
  after_content = "a=2";
  source_kind = "coding_candidate";
  source_id = even_id;
}

abbrev pub sample_head : String
sample_head = "0123456789abcdef0123456789abcdef01234567"

abbrev pub sample : Proposal
sample = record {
  component = promotion_proposal_component;
  schema_version = promotion_proposal_schema_version;
  proposal_id = even_id;
  candidate_id = even_id;
  repository_path = "/srv/repo";
  repository_device = pos 5;
  repository_inode = pos 77;
  branch = "main";
  head = sample_head;
  files = added ∷ (modified ∷ []);
}

-- Unfolding this name opens what a run of the model computes with.
unfoldable pub opened : Unit {0}
unfolding codes is_empty all_codes is_hex_lower contains_code starts_with_code split utf8_code utf8
    encode insert_sorted sorted_by same_list is_sorted any all contains distinct same_set lookup
    traverse is_hex canonical_json_bytes operation_name domain identity file_object file_objects
    proposal_identity_object dec_lt dec_le IsLe
opened = tt
