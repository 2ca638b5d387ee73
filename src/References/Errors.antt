-- ===== src/References/Errors.antt =====
-- The `ValueError`s that core/ids.py and ingestion/reference_registry.py raise, one constructor
-- for each message.
pub data Error : Type 0 where
  empty_id empty_scope reserved_id alias_taken id_taken unknown_alias : Error
  owner_elsewhere two_owners owner_as_id kind_changed not_a_candidate not_a_proposal : Error
  proposal_changed not_bindable rebound unknown_ref unbound_ref not_bound wrong_kind : Error
  unregistered_id wrong_scope invalid_ref already_registered registered_elsewhere : Error
  malformed_entry unknown_binding binding_not_proposed graph_mismatch run_mismatch : Error
