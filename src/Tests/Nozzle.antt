-- ===== src/Tests/Nozzle.antt =====
-- A mutation on its way through the router and the XMEM nozzle.
use goxdcr.Prelude.{
  ◌≤◌, ℕ, ◌<◌, ◌≡◌, ◌⊎◌, ◌↔◌, refl, inl, inr, true, false, none, some, List, [], ◌∷◌, ◌++◌, All,
  done, panics, ◌>>=◌, length, replicate, arith, set_at,
}
use goxdcr.Requests.{upr_mutation, upr_deletion, McRequest}
use goxdcr.Xmem.Conflict.{
  DocumentMetadata, cr_mode_lww, cr_mode_rev_id, resolve_conflict, resolve_conflict_by_cas,
}
use goxdcr.Xmem.Conflict.Order.{Beats, resolve_conflict_iff, resolve_conflict_cases}
use goxdcr.Xmem.Buffer.{
  RequestBuffer, new_req_buffer, returns, get_opaque, free_slot, fill_slot, notify,
  item_count_in_buffer, en_slot, is_matched, is_ignored, receive_success,
}
use goxdcr.Xmem.Buffer.Slots.{IsConsistent, new_req_buffer-IsConsistent}
use goxdcr.Xmem.Buffer.Keeps.{fill_slot-IsConsistent}
use goxdcr.Xmem.Buffer.Events.{
  BufferCall, enters, clears, receives, serve, GoesWell, serve-GoesWell, serve_all, Settles,
  new_req_buffer-Settles,
}
use goxdcr.Xmem.Buffer.Responses.{response_is_matched, response_again_is_ignored}
use goxdcr.Xmem.GetMeta.{
  success, McResponse, decode_set_meta_req, decode_data_type, decode_get_meta_resp, classify,
  parse_responses, need_send, not_send_failed_cr,
}
use goxdcr.Xmem.GetMeta.Decoding.{
  metadata_of, decode_set_meta_req-compose_mc_request, IsDataType, decode_get_meta_resp_cases,
}
use goxdcr.Xmem.GetMeta.Batches.{Loses, parse_responses-Loses}
use goxdcr.Router.{UprEvent, compose_mc_request}
use goxdcr.Router.Extras.{composed}
use goxdcr.Router.Routes.{
  XdcrRouter, RouterEvent, data_filtered, routes_to, drops, route, mode_of, stripped,
  stripped_events, IsSkipped, PassesFilter, route_cases,
}

abbrev version : ℕ → DocumentMetadata
version n = record {
  rev_seq = n;
  cas = 100;
  flags = 0;
  expiry = 0;
  deletion = false;
  data_type = 1;
}

resolve_conflict_iff_example :
    (resolve_conflict (version 5) (version 4) cr_mode_lww true ≡ true)
    ↔ Beats cr_mode_lww true (version 5) (version 4)
resolve_conflict_iff_example = resolve_conflict_iff cr_mode_lww true (version 5) (version 4)

resolve_conflict_cases_example :
    ((resolve_conflict (version 5) (version 4) cr_mode_rev_id true ≡ true)
      × (resolve_conflict (version 4) (version 5) cr_mode_rev_id true ≡ false))
    ⊎ (((resolve_conflict (version 5) (version 4) cr_mode_rev_id true ≡ false)
          × (resolve_conflict (version 4) (version 5) cr_mode_rev_id true ≡ true))
        ⊎ ((resolve_conflict (version 5) (version 4) cr_mode_rev_id true ≡ false)
            × (resolve_conflict (version 4) (version 5) cr_mode_rev_id true ≡ false)
            × ((version 5).cas ≡ (version 4).cas)
            × ((version 5).rev_seq ≡ (version 4).rev_seq)))
resolve_conflict_cases_example = resolve_conflict_cases cr_mode_rev_id true (version 5) (version 4)

abbrev a_request : ℕ → McRequest
a_request n = record {
  seqno = n;
  opcode = upr_mutation;
  cas = 9;
  opaque = 0;
  vbucket = 3;
  key = 97 ∷ [];
  extras = replicate 24 0;
  body = 1 ∷ [];
  data_type = 1;
  unique_key = 97 ∷ n ∷ [];
}

abbrev buffer_of_two : RequestBuffer
buffer_of_two = new_req_buffer 2 0 2

buffer_of_two-IsConsistent : IsConsistent buffer_of_two
buffer_of_two-IsConsistent = new_req_buffer-IsConsistent 2 0 2 (omega arith) (omega arith)

abbrev some_calls : List BufferCall
some_calls =
    enters (a_request 1) 7 1 ∷ enters (a_request 2) 8 2 ∷ receives 0 ∷ clears 1 (some 9) ∷ []

new_req_buffer-Settles_example : Settles 2 (serve_all some_calls buffer_of_two)
new_req_buffer-Settles_example = new_req_buffer-Settles 2 0 2 some_calls (omega arith) (omega arith)

serve-GoesWell_example :
    GoesWell
      (enters (a_request 1) 7 1)
      buffer_of_two
      (serve (enters (a_request 1) 7 1) buffer_of_two)
serve-GoesWell_example =
    serve-GoesWell (enters (a_request 1) 7 1) buffer_of_two buffer_of_two-IsConsistent

abbrev buffer_with_one : RequestBuffer
buffer_with_one = fill_slot 0 (1 ∷ []) (a_request 1) 7 1 buffer_of_two

first_enters : en_slot (a_request 1) 7 1 buffer_of_two ≡ returns (0, buffer_with_one)
unfolding en_slot new_req_buffer
first_enters = refl

response_is_matched_example :
    receive_success (get_opaque 0 (buffer_of_two.sequences 0)) buffer_with_one
    ≡ returns (is_matched, notify (free_slot 0 buffer_with_one))
response_is_matched_example =
    response_is_matched (a_request 1) 7 1 0 buffer_of_two buffer_with_one buffer_of_two-IsConsistent
      first_enters

buffer_with_one-IsConsistent : IsConsistent buffer_with_one
unfolding new_req_buffer
buffer_with_one-IsConsistent =
    fill_slot-IsConsistent 0 (1 ∷ []) (a_request 1) 7 1 buffer_of_two buffer_of_two-IsConsistent
      refl

abbrev freed_buffer : RequestBuffer
freed_buffer = notify (free_slot 0 buffer_with_one)

one_is_freed : receive_success 0 buffer_with_one ≡ returns (is_matched, freed_buffer)
unfolding new_req_buffer get_opaque
one_is_freed =
    response_is_matched (a_request 1) 7 1 0 buffer_of_two buffer_with_one buffer_of_two-IsConsistent
      first_enters

second_enters :
    en_slot (a_request 2) 8 2 freed_buffer
    ≡ returns (1, fill_slot 1 (0 ∷ []) (a_request 2) 8 2 freed_buffer)
unfolding en_slot new_req_buffer fill_slot free_slot notify item_count_in_buffer set_at
second_enters = refl

response_again_is_ignored_example :
    receive_success 0 (fill_slot 1 (0 ∷ []) (a_request 2) 8 2 freed_buffer)
    ≡ returns (is_ignored, fill_slot 1 (0 ∷ []) (a_request 2) 8 2 freed_buffer)
response_again_is_ignored_example =
    response_again_is_ignored 0 (a_request 2) 8 2 1 buffer_with_one freed_buffer
      (fill_slot 1 (0 ∷ []) (a_request 2) 8 2 freed_buffer) buffer_with_one-IsConsistent
      one_is_freed second_enters

abbrev an_event : UprEvent
an_event = record {
  opcode = upr_deletion;
  vbucket = 3;
  key = 97 ∷ [];
  value = 1 ∷ [];
  flags = 5;
  expiry = 77;
  rev_seqno = 12;
  cas = 100;
  seqno = 40;
  snapstart_seq = 0;
  snapend_seq = 0;
  snapshot_type = 0;
  data_type = 1;
}

decode_set_meta_req-compose_mc_request_example :
    (compose_mc_request cr_mode_lww (a_request 1) an_event >>= decode_set_meta_req)
    ≡ done (metadata_of an_event)
decode_set_meta_req-compose_mc_request_example =
    decode_set_meta_req-compose_mc_request cr_mode_lww an_event (a_request 1) (inr (inl refl))
      (omega arith) (omega arith) (omega arith)

abbrev a_response : ℕ → McResponse
a_response n = record {
  status = success;
  cas = 100;
  extras = replicate n 1;
  extras_room = 97 ∷ [];
  data_type = 1;
}

decode_get_meta_resp_cases_example :
    ((length ((a_response 20).extras ++ (a_response 20).extras_room) < 20)
      × (decode_get_meta_resp true (a_response 20) ≡ panics))
    ⊎ (((true ≡ true)
          × (length (a_response 20).extras ≡ 20)
          × (decode_get_meta_resp true (a_response 20) ≡ panics))
        ⊎ (((true ≡ true)
              × (length (a_response 20).extras < 20)
              × (decode_get_meta_resp true (a_response 20) ≡ done none))
            ⊎ ((20 ≤ length ((a_response 20).extras ++ (a_response 20).extras_room))
                × (target : DocumentMetadata) × (decode_get_meta_resp true (a_response 20)
                    ≡ done (some target))
                × (target.cas ≡ (a_response 20).cas)
                × IsDataType true (a_response 20) target.data_type)))
decode_get_meta_resp_cases_example = decode_get_meta_resp_cases true (a_response 20)

one_failed :
    parse_responses cr_mode_lww true ((97 ∷ [], a_response 21) ∷ []) (a_request 1 ∷ []) []
    ≡ done ((97 ∷ 1 ∷ [], true) ∷ [])
unfolding parse_responses classify decode_get_meta_resp decode_data_type decode_set_meta_req
    resolve_conflict resolve_conflict_by_cas
one_failed = refl

parse_responses-Loses_example :
    All
      (λ r.
        (need_send r ((97 ∷ 1 ∷ [], true) ∷ []) ≡ not_send_failed_cr)
        ↔ Loses cr_mode_lww true ((97 ∷ [], a_response 21) ∷ []) r)
      (a_request 1 ∷ [])
parse_responses-Loses_example =
    parse_responses-Loses cr_mode_lww true ((97 ∷ [], a_response 21) ∷ []) (a_request 1 ∷ [])
      ((97 ∷ 1 ∷ [], true) ∷ []) (tt, tt, tt) one_failed

abbrev a_router : XdcrRouter
a_router = record {
  filter = none;
  routing_map = some (λ vb. some 2);
  source_cr_mode = cr_mode_lww;
  exp_del_mode = mode_of true false true;
}

route_cases_example :
    (IsSkipped false true an_event.opcode
      × (route a_router (some (a_request 1)) an_event ≡ done (drops, data_filtered ∷ [])))
    ⊎ (((¬ IsSkipped false true an_event.opcode)
          × PassesFilter a_router.filter (stripped true an_event)
          × (route a_router (some (a_request 1)) an_event
              ≡ done (
                routes_to 2 (composed cr_mode_lww (stripped true an_event)),
                stripped_events true,
              )))
        ⊎ ((¬ IsSkipped false true an_event.opcode)
            × (¬ PassesFilter a_router.filter (stripped true an_event))
            × (more : List RouterEvent) × (route a_router (some (a_request 1)) an_event
                ≡ done (drops, stripped_events true ++ more))))
route_cases_example =
    route_cases a_router (λ vb. some 2) 2 true false true (a_request 1) an_event refl refl refl
      (inr (inl refl))
