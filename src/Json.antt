-- ===== src/Json.antt =====
-- `json.dumps(value, sort_keys=True, separators=(",", ":"), ensure_ascii=False).encode("utf-8")`,
-- the canonical form that every module computes its identities from
-- (`_canonical_json_bytes` of src/hands_free_auto_lab/lab_promotion_transaction_state.py,
-- lab_coding_job_lifecycle.py, lab_coding_job_queue.py and lab_promotion_rollback_plan.py).
mod Print
mod Reading
pub use Print.{Json, Items, Fields, null, boolean, integer, text, array, object}
pub use Print.{nil, item, end, field, fields_of, object_of}
unfoldable pub use Print.{canonical_json_bytes}
unfoldable pub use Reading.{field_names, get_field}
