-- ===== src/Tests/MessageRuns.antt =====
-- Control messages at concrete inputs.
use imquic.Base.{
  ℕ, zero, suc, ◌≡◌, refl, arith, true, false, none, some, Option, [], ◌∷◌, ◌++◌, Bytes,
}
use imquic.Wire.Moqint.{version_16, version_18, read_moqint}
use imquic.Wire.Writer.{overrun, stored}
use imquic.Wire.Reader.{parsed, protocol_violation, ◌>>=◌, number_before, number, if_there}
use imquic.Moq.Messages.{message, next_message}
use imquic.Moq.Messages.Reason.{parse_reason, reason_str, text_of}
use imquic.Moq.Messages.Done.{
  type_publish, type_publish_done, sent, RequestStream, end_request, parse_publish_done,
  can_be_done, publish_done_fields, read_request_id,
}
use imquic.Moq.Messages.Done.Build.{add_publish_done}
use imquic.Moq.Messages.Done.RoundTrip.{publish_done, parse_publish_done-add_publish_done}
use imquic.Moq.Messages.Done.Overrun.{add_publish_done_overrun}
use imquic.Moq.Messages.Done.Once.{publish_done_once}
use imquic.Moq.Messages.Cancel.{
  type_publish_namespace_cancel, array_of, parse_publish_namespace_cancel,
}
use imquic.Moq.Messages.Cancel.Build.{add_publish_namespace_cancel}
use imquic.Moq.Messages.Cancel.RoundTrip.{
  parse_publish_namespace_cancel-add_publish_namespace_cancel,
}
use imquic.Moq.Messages.Single.{
  type_requests_blocked, type_publish_namespace_done, type_unsubscribe, type_fetch_cancel,
  add_requests_blocked, add_publish_namespace_done, add_unsubscribe, add_fetch_cancel,
}
use imquic.Moq.Messages.Single.Parse.{
  parse_requests_blocked, parse_publish_namespace_done, parse_unsubscribe, parse_fetch_cancel,
}
use imquic.Moq.Messages.Single.RoundTrip.{Delivers, single_delivered}
use imquic.Moq.Subscriptions.{Subscriptions, publish, receive_unsubscribe, receive_fetch_cancel}
use imquic.Moq.Subscriptions.Steps.{empty}
use imquic.Tests.Printing.{text_copy}

abbrev over : Bytes
over = 111 ∷ 118 ∷ 101 ∷ 114 ∷ []

abbrev publish_stream : Option RequestStream
publish_stream = some (record {
  request_id = 6;
  request_type = type_publish;
  request_state = sent;
  request_sender = false;
})

parse_publish_done-add_publish_done_example :
    (bytes sent : Bytes) × (add_publish_done version_18 true 6 2 300 (some over) 60 ≡ stored bytes)
    × ((rest : Bytes)
        → next_message version_18 (bytes ++ rest) ≡ message type_publish_done sent rest)
    × (parse_publish_done text_copy version_18 publish_stream sent
        ≡ parsed ((publish_done 6 2 300 over, end_request publish_stream), []))
unfolding can_be_done
parse_publish_done-add_publish_done_example =
    parse_publish_done-add_publish_done text_copy version_18 6 2 300 (some over)
      (record {
        id_fits = omega arith;
        status_fits = omega arith;
        count_fits = omega arith;
        reason = record {
          fits = omega arith;
          no_zero = (omega arith, (omega arith, (omega arith, (omega arith, tt))));
        };
      })
      60 (omega arith) true (λ h. refl) publish_stream
      (record { can_end = λ h. refl; same_id = λ h. refl })

publish_done_once_example :
    parse_publish_done text_copy version_18 (end_request publish_stream) (7 ∷ [])
    ≡ protocol_violation
unfolding parse_publish_done can_be_done publish_done_fields ◌>>=◌ read_request_id number_before
    read_moqint parse_reason number if_there
publish_done_once_example =
    publish_done_once text_copy version_18 publish_stream (end_request publish_stream)
      (2 ∷ 5 ∷ 0 ∷ []) [] (7 ∷ []) (publish_done 6 2 5 []) (omega arith) refl (omega arith)

parse_publish_namespace_cancel-add_publish_namespace_cancel_example :
    (bytes sent : Bytes) × (add_publish_namespace_cancel version_16 8 4 none 60 ≡ stored bytes)
    × ((rest : Bytes)
        → next_message version_16 (bytes ++ rest) ≡ message type_publish_namespace_cancel sent rest)
    × (parse_publish_namespace_cancel text_copy version_16 sent
        ≡ parsed (
          record { request_id = 8; error_code = 4; reason = array_of (reason_str (text_of none)) },
          [],
        ))
parse_publish_namespace_cancel-add_publish_namespace_cancel_example =
    parse_publish_namespace_cancel-add_publish_namespace_cancel text_copy version_16 8 4 none
      (record {
        old = omega arith;
        id_fits = omega arith;
        error_fits = omega arith;
        reason = record { fits = omega arith; no_zero = tt };
      })
      60 (omega arith)

abbrev same_letters : ℕ → Bytes
same_letters zero = []
same_letters (suc n) = 97 ∷ same_letters n

-- The buffer of `imquic_moq_publish_done` has 200 bytes.
add_publish_done_overrun_example :
    add_publish_done version_18 true 6 2 300 (some (same_letters 201)) 200 ≡ overrun
add_publish_done_overrun_example =
    add_publish_done_overrun version_18 6 2 300 (same_letters 201) 200 (omega arith) (omega arith)
      (omega arith)

abbrev served : Subscriptions
served = publish empty 70 5

single_delivered_example :
    Delivers version_16 type_requests_blocked
      (add_requests_blocked version_16 70)
      40
      (parse_requests_blocked version_16)
      70
    × Delivers version_16 type_publish_namespace_done
        (add_publish_namespace_done version_16 70)
        40
        (parse_publish_namespace_done version_16)
        70
    × Delivers version_16 type_unsubscribe
        (add_unsubscribe version_16 70)
        40
        (parse_unsubscribe version_16 served)
        (70, receive_unsubscribe served 70)
    × Delivers version_16 type_fetch_cancel
        (add_fetch_cancel version_16 70)
        40
        (parse_fetch_cancel version_16 served)
        (70, receive_fetch_cancel served 70)
single_delivered_example =
    single_delivered version_16 70 (omega arith) 40 (omega arith) (omega arith) served
