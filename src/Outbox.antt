-- ===== src/Outbox.antt =====
-- worker/event_outbox.py: the persistent FIFO of the events to deliver. `file_path` is modelled by
-- whether there is one and by the document that the file holds. What the operating system does
-- when a file is written comes in as one `Write` for each time that the state is replaced.
mod Defs
mod Load
pub mod Enqueue
pub mod Drain
pub mod Conserve
pub mod Storage
pub mod Checked
pub mod Durable
pub use Defs.{
  Payload, State, Write, published, refused, interrupted, Result, ok, raised, Outbox, DrainResult,
  Action, deliver, stop_dry, bury, stop_transient,
}
unfoldable pub use Defs.{
  empty_state, event_id, is_payload, ids, known_ids, replace_state, objects, object_entries, encode,
  enqueue_loop, with_value, enqueue_many, all_payloads, action, dead_record, go_on, drain_loop,
  drain,
}
pub use Load.{Time}
unfoldable pub use Load.{
  as_object, as_array, present, ◌>>=◌, ◌>>◌, valid_payload, valid_keyed, valid_pending,
  valid_letter, valid_dead_letter, validate_state, valid_legacy, order_legacy_pending, is_version,
  load_legacy, load_current, load_document, load,
}
