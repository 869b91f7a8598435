-- ===== src/Moq/Codes.antt =====
-- The names of codes (moq.c), which logs and events carry: the functions `..._str`. `none` stands for NULL.
pub mod Distinct
use Prim.Native.String.{String}
use imquic.Base.{ℕ, List, [], ◌∷◌, Option, none, some, leb, if◌then◌else◌, lookup}
use imquic.Wire.Moqint.{version_18}

abbrev pub Table : Type 0
Table = List (ℕ × String)

abbrev pub error_codes : Table
error_codes =
    (0, "No Error")
    ∷ (1, "Internal Error")
    ∷ (2, "Unauthorized")
    ∷ (3, "Protocol Violation")
    ∷ (4, "Invalid Request ID")
    ∷ (5, "Duplicate Track Alias")
    ∷ (6, "Key-Value Formatting Error")
    ∷ (7, "Invalid Required Request ID")
    ∷ (8, "Invalid Path")
    ∷ (9, "Malformed Path")
    ∷ (16, "GOAWAY Timeout")
    ∷ (17, "Control Message Timeout")
    ∷ (18, "Data Stream Timeout")
    ∷ (19, "Auth Token Cache Overflow")
    ∷ (20, "Duplicate Auth Token Alias")
    ∷ (21, "Version Negotiation Failed")
    ∷ (22, "Malformed Auth Token")
    ∷ (23, "Unknown Auth Token Alias")
    ∷ (24, "Expired Auth Token")
    ∷ (25, "Invalid Authority")
    ∷ (26, "Malformed Authority")
    ∷ (255, "Unknown Error")
    ∷ []

abbrev pub error_code_str : ℕ → Option String
error_code_str code = lookup code error_codes

abbrev pub request_error_codes : Table
request_error_codes =
    (0, "Internal Error")
    ∷ (1, "Unauthorized")
    ∷ (2, "Timeout")
    ∷ (3, "Not Suppoered")
    ∷ (4, "Malformed Auth Token")
    ∷ (5, "Expired Auth Token")
    ∷ (6, "Going Away")
    ∷ (9, "Excessive Load")
    ∷ (16, "Does Not Exist")
    ∷ (17, "Invalid Range")
    ∷ (18, "Malformed Track")
    ∷ (25, "Duplicate Subscription")
    ∷ (32, "Uninterested")
    ∷ (48, "Prefix Overlap")
    ∷ (49, "Namespace Too Large")
    ∷ (50, "Invalid Joining Request ID")
    ∷ (51, "Unsupported Extension")
    ∷ (52, "Redirect")
    ∷ []

abbrev pub request_error_code_str : ℕ → Option String
request_error_code_str code = lookup code request_error_codes

abbrev pub pub_done_codes : Table
pub_done_codes =
    (0, "Internal Error")
    ∷ (1, "Unauthorized")
    ∷ (2, "Track Ended")
    ∷ (3, "Subscription Ended")
    ∷ (4, "Going Away")
    ∷ (6, "Expired")
    ∷ (5, "Too Far Behind")
    ∷ (8, "Update Failed")
    ∷ (9, "Excessive Load")
    ∷ (18, "Malformed Track")
    ∷ []

abbrev pub pub_done_code_str : ℕ → Option String
pub_done_code_str code = lookup code pub_done_codes

abbrev pub reset_stream_codes : Table
reset_stream_codes =
    (0, "Internal Error")
    ∷ (1, "Cancelled")
    ∷ (2, "Delivery Timeout")
    ∷ (3, "Session Closed")
    ∷ (4, "Going Away")
    ∷ (6, "Unknown Object Status")
    ∷ (5, "Too Far Behind")
    ∷ (9, "Excessive Load")
    ∷ (18, "Malformed Track")
    ∷ (7, "Expired Auth Token")
    ∷ []

abbrev pub reset_stream_code_str : ℕ → Option String
reset_stream_code_str code = lookup code reset_stream_codes

-- The type that version 18 deprecates stands first.
abbrev pub message_types : Table
message_types =
    (17, "SUBSCRIBE_NAMESPACE")
    ∷ (7, "REQUEST_OK")
    ∷ (5, "REQUEST_ERROR")
    ∷ (3, "SUBSCRIBE")
    ∷ (4, "SUBSCRIBE_OK")
    ∷ (2, "REQUEST_UPDATE")
    ∷ (6, "PUBLISH_NAMESPACE")
    ∷ (9, "PUBLISH_NAMESPACE_DONE")
    ∷ (10, "UNSUBSCRIBE")
    ∷ (11, "PUBLISH_DONE")
    ∷ (12, "PUBLISH_NAMESPACE_CANCEL")
    ∷ (13, "TRACK_STATUS")
    ∷ (16, "GOAWAY")
    ∷ (80, "SUBSCRIBE_NAMESPACE")
    ∷ (81, "SUBSCRIBE_TRACKS")
    ∷ (8, "NAMESPACE")
    ∷ (14, "NAMESPACE_DONE")
    ∷ (15, "PUBLISH_BLOCKED")
    ∷ (21, "MAX_REQUEST_ID")
    ∷ (26, "REQUESTS_BLOCKED")
    ∷ (22, "FETCH")
    ∷ (23, "FETCH_CANCEL")
    ∷ (24, "FETCH_OK")
    ∷ (32, "CLIENT_SETUP")
    ∷ (33, "SERVER_SETUP")
    ∷ (12032, "SETUP")
    ∷ (29, "PUBLISH")
    ∷ (30, "PUBLISH_OK")
    ∷ []

abbrev pub message_type_str : ℕ → Option String
message_type_str code = lookup code message_types

abbrev pub request_states : Table
request_states =
    (0, "New") ∷ (1, "Sent") ∷ (2, "OK") ∷ (3, "Error") ∷ (4, "Update Sent") ∷ (5, "Done") ∷ []

abbrev pub request_state_str : ℕ → Option String
request_state_str code = lookup code request_states

abbrev pub setup_option_types : Table
setup_option_types =
    (1, "PATH")
    ∷ (2, "MAX_REQUEST_ID")
    ∷ (3, "AUTHORIZATION_TOKEN")
    ∷ (4, "MAX_AUTH_TOKEN_CACHE_SIZE")
    ∷ (5, "AUTHORITY")
    ∷ (7, "MOQT_IMPLEMENTATION")
    ∷ []

abbrev pub setup_option_type_str : ℕ → Option String
setup_option_type_str code = lookup code setup_option_types

-- One parameter has another name since version 18.
abbrev pub request_parameter_types : (version : ℕ) → Table
request_parameter_types version =
    (2, if leb version_18 version then "OBJECT_DELIVERY_TIMEOUT" else "DELIVERY_TIMEOUT")
    ∷ (4, "RENDEZVOUS_TIMEOUT")
    ∷ (6, "SUBGROUP_DELIVERY_TIMEOUT")
    ∷ (10, "FILL_TIMEOUT")
    ∷ (3, "AUTHORIZATION_TOKEN")
    ∷ (32, "SUBSCRIBER_PRIORITY")
    ∷ (34, "GROUP_ORDER")
    ∷ (33, "SUBSCRIPTION_FILTER")
    ∷ (8, "EXPIRES")
    ∷ (9, "LARGEST_OBJECT")
    ∷ (16, "FORWARD")
    ∷ (50, "NEW_GROUP_REQUEST")
    ∷ (52, "TRACK_NAMESPACE_PREFIX")
    ∷ []

abbrev pub request_parameter_type_str : (version type : ℕ) → Option String
request_parameter_type_str version type = lookup type (request_parameter_types version)

abbrev pub filter_types : Table
filter_types =
    (1, "Next Group Start")
    ∷ (2, "Largest Object")
    ∷ (3, "AbsoluteStart")
    ∷ (4, "AbsoluteRange")
    ∷ []

abbrev pub filter_type_str : ℕ → Option String
filter_type_str code = lookup code filter_types

abbrev pub group_orders : Table
group_orders = (0, "Original") ∷ (1, "Ascending") ∷ (2, "Descending") ∷ []

abbrev pub group_order_str : ℕ → Option String
group_order_str code = lookup code group_orders

abbrev pub subscribe_namespace_options_table : Table
subscribe_namespace_options_table =
    (0, "PUBLISH") ∷ (1, "NAMESPACE") ∷ (2, "PUBLISH and NAMESPACE") ∷ []

abbrev pub subscribe_namespace_options_str : ℕ → Option String
subscribe_namespace_options_str code = lookup code subscribe_namespace_options_table

abbrev pub fetch_types : Table
fetch_types =
    (1, "Standalone Fetch") ∷ (2, "Relative Joining Fetch") ∷ (3, "Absolute Joining Fetch") ∷ []

abbrev pub fetch_type_str : ℕ → Option String
fetch_type_str code = lookup code fetch_types

abbrev pub auth_token_alias_types : Table
auth_token_alias_types = (0, "DELETE") ∷ (1, "REGISTER") ∷ (2, "USE_ALIAS") ∷ (3, "USE_VALUE") ∷ []

abbrev pub auth_token_alias_type_str : ℕ → Option String
auth_token_alias_type_str code = lookup code auth_token_alias_types
