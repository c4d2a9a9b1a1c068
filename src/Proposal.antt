-- ===== src/Proposal.antt =====
-- The evidence of lab_promotion_proposal.py that a transaction is bound to, and its identity.
-- (src/hands_free_auto_lab/lab_promotion_proposal.py)
use hands_free_auto_lab_port.Prelude.{
  ℕ, String, Bool, Option, none, some, List, [], ◌∷◌, ◌++◌, ℤ, pos, codes,
}
use hands_free_auto_lab_port.Json.{Json, Items, nil, item, object_of, canonical_json_bytes}
use hands_free_auto_lab_port.Checks.{Sha256}

-- The names of the operations; `unsupported` is any other string.
pub data Operation : Type 0 where
  add modify : Operation
  unsupported : String → Operation

unfoldable pub operation_name : Operation → String
operation_name add = "ADD"
operation_name modify = "MODIFY"
operation_name (unsupported s) = s

pub record ProposalFile : Type 0 where
  pub operation : Operation
  pub path : String
  pub before_exists : Bool
  pub before_bytes : Option ℤ
  pub before_sha256 : Option String
  pub before_mode : Option ℤ
  pub after_bytes : ℤ
  pub after_sha256 : String
  pub after_mode : ℤ
  pub after_content : String
  pub source_kind : String
  pub source_id : String

pub record Proposal : Type 0 where
  pub component : String
  pub schema_version : ℤ
  pub proposal_id : String
  pub candidate_id : String
  pub repository_path : String
  pub repository_device : ℤ
  pub repository_inode : ℤ
  pub branch : String
  pub head : String
  pub files : List ProposalFile

abbrev pub promotion_proposal_component : String
promotion_proposal_component = "hands-free-auto-lab-promotion-proposal-v3"

abbrev pub promotion_proposal_schema_version : ℤ
promotion_proposal_schema_version = pos 3

abbrev pub allowed_source_kinds : List String
allowed_source_kinds = "legacy_write_action" ∷ "coding_candidate" ∷ []

abbrev pub json_text : Option String → Json
json_text none = Json.null
json_text (some s) = Json.text s

abbrev pub json_integer : Option ℤ → Json
json_integer none = Json.null
json_integer (some n) = Json.integer n

-- A bytes literal that ends in `\x00`, as the identity domains do.
unfoldable pub domain : String → List ℕ
unfolding codes
domain s = codes s ++ (0 ∷ [])

-- `hashlib.sha256(domain + canonical bytes).hexdigest()`
unfoldable pub identity : Sha256 → String → Json → String
unfolding domain canonical_json_bytes
identity H d value = H.hexdigest (domain d ++ canonical_json_bytes value)

unfoldable pub file_object : ProposalFile → Json
unfolding operation_name
file_object f = object_of (
    ("operation", Json.text (operation_name f.operation))
    ∷ ("path", Json.text f.path)
    ∷ ("before_exists", Json.boolean f.before_exists)
    ∷ ("before_bytes", json_integer f.before_bytes)
    ∷ ("before_sha256", json_text f.before_sha256)
    ∷ ("before_mode", json_integer f.before_mode)
    ∷ ("after_bytes", Json.integer f.after_bytes)
    ∷ ("after_sha256", Json.text f.after_sha256)
    ∷ ("after_mode", Json.integer f.after_mode)
    ∷ ("after_content", Json.text f.after_content)
    ∷ ("source_kind", Json.text f.source_kind)
    ∷ ("source_id", Json.text f.source_id)
    ∷ [])

unfoldable pub file_objects : List ProposalFile → Items
unfolding file_object
file_objects [] = nil
file_objects (f ∷ fs) = item (file_object f) (file_objects fs)

module _ (candidate_id repository_path : String) (repository_device repository_inode : ℤ)
    (branch head : String) (files : List ProposalFile) where
  unfoldable pub proposal_identity_object : Json
  unfolding file_objects
  proposal_identity_object = object_of (
      ("component", Json.text promotion_proposal_component)
      ∷ ("schema_version", Json.integer promotion_proposal_schema_version)
      ∷ ("candidate_id", Json.text candidate_id)
      ∷ ("repository_path", Json.text repository_path)
      ∷ ("repository_device", Json.integer repository_device)
      ∷ ("repository_inode", Json.integer repository_inode)
      ∷ ("branch", Json.text branch)
      ∷ ("head", Json.text head)
      ∷ ("files", Json.array (file_objects files))
      ∷ [])

abbrev pub proposal_id_domain : String
proposal_id_domain = "hands-free-auto-lab-promotion-proposal-identity-v3"
