-- ===== src/Tests/MoqRuns.antt =====
-- The MoQ stack, on messages and identifiers of a first exchange.
use Prim.Native.String.{String}
use imquic.Base.{
  ◌≡◌, ◌≢◌, refl, arith, inl, inr, true, false, List, [], ◌∷◌, ◌++◌, none, some, Bytes, lookup,
}
use imquic.Wire.Moqint.{version_16, version_18, write_moqint}
use imquic.Moq.DatagramType.{DatagramFlags, datagram_message_type_parse}
use imquic.Moq.SubgroupType.{
  SubgroupFlags, data_message_type_from_subgroup_header, data_message_type_to_subgroup_header,
}
use imquic.Moq.SubgroupType.RoundTrip.{data_message_type_to-from_subgroup_header}
use imquic.Moq.FetchFlags.{
  FetchFlags, previous, id, generate_fetch_serialization_flags, parse_fetch_serialization_flags,
}
use imquic.Moq.FetchFlags.RoundTrip.{before_parsing, parse-generate_fetch_serialization_flags}
use imquic.Moq.RequestId.{
  MoqContext, new_connection, send_request, receive_request, get_next_request_id,
  set_max_request_id, accepted, parse_max_request_id, apply_setup, setup_max_option,
}
use imquic.Moq.RequestId.Order.{Link, send, Reach, here, next, start, reachable_request_accepted}
use imquic.Moq.RequestId.Limit.{
  parse-set_max_request_id, first_request_refused, skipped_request_refused,
}
use imquic.Moq.SetupOptions.{SetupOptions, add_data, parse_setup_option}
use imquic.Moq.SetupOptions.RoundTrip.{parse_setup_option-add_data}
use imquic.Wire.Writer.{stored}
use imquic.Moq.Namespaces.{fields, add_namespaces, parse_namespaces}
use imquic.Moq.Namespaces.RoundTrip.{parse_namespaces-add_namespaces}
use imquic.Moq.Codes.{message_type_str}
use imquic.Moq.Codes.Distinct.{of_error_code, code_str}

abbrev datagram_flags : DatagramFlags
datagram_flags = record { payload = true; prop = true; eog = true; oid = false; priority = true }

no_violation : (datagram_message_type_parse 0x2d).1 ≡ false
unfolding datagram_message_type_parse
no_violation = refl

abbrev subgroup_flags : SubgroupFlags
subgroup_flags = record {
  subgroup = true;
  sgid0 = false;
  prop = true;
  eog = false;
  priority = true;
  first_object = true;
}

data_message_type_to-from_subgroup_header_example :
    data_message_type_to_subgroup_header version_18
      (data_message_type_from_subgroup_header version_18 subgroup_flags)
      (subgroup_flags, false)
    ≡ (subgroup_flags, false)
data_message_type_to-from_subgroup_header_example =
    data_message_type_to-from_subgroup_header version_18 subgroup_flags subgroup_flags false

-- An object of the same subgroup as the one before it.
abbrev fetch_flags : FetchFlags
fetch_flags = record {
  subgroup = previous;
  oid = true;
  group = false;
  priority = true;
  prop = false;
  datagram = false;
  end_ne_range = false;
  end_uk_range = false;
  violation = false;
}

parse-generate_fetch_serialization_flags_example :
    parse_fetch_serialization_flags (generate_fetch_serialization_flags fetch_flags) before_parsing
    ≡ record fetch_flags { subgroup = id }
parse-generate_fetch_serialization_flags_example =
    parse-generate_fetch_serialization_flags fetch_flags refl refl refl

-- The client has sent its first request.
abbrev first_link : Link
first_link = start version_16 5 false

abbrev sent_context : MoqContext
sent_context = record first_link.sender { next_request_id = 2 }

first_sent :
    send_request first_link.sender (get_next_request_id first_link.sender) ≡ some sent_context
unfolding send_request new_connection apply_setup setup_max_option
first_sent = refl

first_reached : Reach first_link (record first_link { sender = sent_context; flight = 0 ∷ [] })
unfolding new_connection apply_setup setup_max_option
first_reached = next here (send first_link sent_context first_sent)

reachable_request_accepted_example : receive_request first_link.receiver 0 ≢ none
reachable_request_accepted_example =
    reachable_request_accepted version_16 5 false
      (record first_link { sender = sent_context; flight = 0 ∷ [] }) 0 [] (omega arith)
      (omega arith) (omega arith) first_reached refl

first_request_refused_example :
    let server = new_connection true version_16 in
    let client = apply_setup (new_connection false version_16) (setup_max_option server) in
    (send_request client (get_next_request_id client) ≢ none)
    × (receive_request server (get_next_request_id client) ≡ none)
first_request_refused_example =
    first_request_refused version_16
      (apply_setup (new_connection false version_16)
        (setup_max_option (new_connection true version_16)))
      (new_connection true version_16) (omega arith) refl refl

-- A client that may send identifiers below 9 and has sent none, and its server.
abbrev client : MoqContext
client = record {
  is_server = false;
  version = version_16;
  next_request_id = 0;
  expected_request_id = 1;
  max_request_id = 9;
  local_max_request_id = 0;
}

abbrev server : MoqContext
server = record {
  is_server = true;
  version = version_16;
  next_request_id = 1;
  expected_request_id = 0;
  max_request_id = 0;
  local_max_request_id = 9;
}

skipped_request_refused_example : (send_request client 4 ≢ none) × (receive_request server 4 ≡ none)
skipped_request_refused_example =
    skipped_request_refused client server 4 (omega arith) refl refl (omega arith) refl (omega arith)

server_sets : set_max_request_id server 21 ≡ some (record server { local_max_request_id = 21 }, 20)
unfolding set_max_request_id
server_sets = refl

parse-set_max_request_id_example :
    parse_max_request_id client (write_moqint version_16 20 20)
    ≡ accepted (record client { max_request_id = 21 }) 1
parse-set_max_request_id_example =
    parse-set_max_request_id server (record server { local_max_request_id = 21 }) client 21 20
      (omega arith) refl (omega arith) (omega arith) server_sets

abbrev two_fields : List Bytes
two_fields = (109 ∷ 111 ∷ 113 ∷ []) ∷ (49 ∷ []) ∷ []

-- In PUBLISH_NAMESPACE, with bytes behind.
parse_namespaces-add_namespaces_example :
    (all : Bytes) × (add_namespaces version_18 6 two_fields 200 ≡ stored all)
    × (parse_namespaces version_18 6 false (all ++ (0 ∷ [])) ≡ fields two_fields (0 ∷ []))
parse_namespaces-add_namespaces_example =
    parse_namespaces-add_namespaces version_18 6 200 false two_fields (0 ∷ [])
      ((omega arith, omega arith), ((omega arith, omega arith), tt)) (omega arith) (omega arith)
      (inl (omega arith)) (inr (omega arith)) (omega arith)

named : code_str of_error_code 3 ≡ some "Protocol Violation"
unfolding lookup
named = refl

goaway_name : message_type_str 0x10 ≡ some "GOAWAY"
unfolding lookup
goaway_name = refl

not_goaway : ◌≢◌ {A = String} "GOAWAY" "SUBSCRIBE_NAMESPACE"
not_goaway = λ e. cc

abbrev no_options : SetupOptions
no_options = record {
  path_set = false;
  path = [];
  max_request_id_set = false;
  max_request_id = 0;
  max_auth_token_cache_size_set = false;
  max_auth_token_cache_size = 0;
  auth_token_set = false;
  auth_token = [];
  authority_set = false;
  authority = [];
  moqt_implementation_set = false;
  moqt_implementation = [];
  unknown = false;
}

parse_setup_option-add_data_example :
    (bytes : Bytes) × (add_data version_16 64 0x03 2 (1 ∷ 2 ∷ 3 ∷ []) ≡ stored bytes)
    × (parse_setup_option version_16 2 no_options (bytes ++ [])
        ≡ some (record no_options { auth_token_set = true; auth_token = 1 ∷ 2 ∷ 3 ∷ [] }, 0x03, []))
parse_setup_option-add_data_example =
    parse_setup_option-add_data version_16 64 2 no_options (1 ∷ 2 ∷ 3 ∷ []) [] (omega arith)
      (omega arith) (omega arith)
