-- ===== src/Queue/Tests.antt =====
-- A queue of two jobs, and the theorems about queues at concrete data.
use hands_free_auto_lab_port.Prelude.{◌≡◌, ◌↔◌, refl, true, [], ◌∷◌, ok, err, raised, queue_error}
use hands_free_auto_lab_port.Queue.Samples.{an_item, check_id, two, bare, opened_queue}
use hands_free_auto_lab_port.Samples.{toy, even_id, odd_id}
use hands_free_auto_lab_port.Checks.{text, is_hex}
use hands_free_auto_lab_port.Queue.Types.{Item, Queue}
use hands_free_auto_lab_port.Queue.Validate.{
  build_lab_coding_job_queue_item, validate_lab_coding_job_queue, queue_of,
  build_lab_coding_job_queue,
}
use hands_free_auto_lab_port.Queue.Success.{IsItem, item_build_total}
use hands_free_auto_lab_port.Queue.Contents.{IsQueueable, queue_build_iff, queue_rebuild}

two_valid :
    validate_lab_coding_job_queue toy bare (queue_of toy bare two) ≡ ok (queue_of toy bare two)
unfolding opened_queue
two_valid = refl

-- One request twice makes no queue, even in two runs.
repeated :
    build_lab_coding_job_queue toy bare (an_item even_id odd_id ∷ (an_item even_id even_id ∷ []))
    ≡ err (raised queue_error "" "queue must not contain duplicate request_id values")
unfolding opened_queue
repeated = refl

item_built :
    build_lab_coding_job_queue_item toy bare even_id (text odd_id) ≡ ok (an_item even_id odd_id)
unfolding opened_queue
item_built = refl

queue_build_iff_example :
    (build_lab_coding_job_queue toy bare two ≡ ok (queue_of toy bare two))
    ↔ (IsQueueable toy bare two × (queue_of toy bare two ≡ queue_of toy bare two))
queue_build_iff_example = queue_build_iff toy bare two (queue_of toy bare two)

queue_rebuild_example :
    (s : Queue bare) × (build_lab_coding_job_queue toy bare (queue_of toy bare two).items ≡ ok s)
    × (s.items ≡ (queue_of toy bare two).items)
    × (s.queue_id ≡ (queue_of toy bare two).queue_id)
queue_rebuild_example = queue_rebuild toy bare (queue_of toy bare two) two_valid

id_checked : check_id even_id ≡ ok even_id
unfolding opened_queue
id_checked = refl

run_is_hex : is_hex 64 odd_id ≡ true
unfolding opened_queue
run_is_hex = refl

item_build_total_example :
    (i : Item bare) × (build_lab_coding_job_queue_item toy bare even_id (text odd_id) ≡ ok i)
    × IsItem toy bare i
    × (i.request ≡ even_id)
    × (i.run_id ≡ odd_id)
item_build_total_example = item_build_total toy bare even_id odd_id id_checked run_is_hex
