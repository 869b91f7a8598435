-- ===== src/Moq/Messages/Done/Once.antt =====
-- A request is done once.
use imquic.Base.{
  ℕ, ◌≤◌, ◌<◌, ◌≡◌, refl, sym, ap, arith, Bool, true, false, not, ◌&&◌, Option, none, some, Bytes,
  length, leb, ◌==◌, if◌then◌else◌,
}
use imquic.Glib.{GSnprintf}
use imquic.Wire.Moqint.{version_17}
use imquic.Wire.Reader.{Parse, broken, protocol_violation, overread, parsed}
use imquic.Wire.Reader.Input.{>>=-parsed}
use imquic.Moq.Messages.Done.{
  RequestStream, can_be_done, PublishDone, end_request, publish_done_fields, parse_publish_done,
}

-- What the parser leaves of the stream.
abbrev Ends : Option RequestStream → Parse ((PublishDone × Option RequestStream) × Bytes) → Type 0
Ends stream p =
    (d : PublishDone) (after : Option RequestStream) (rest : Bytes)
    → p ≡ parsed ((d, after), rest)
    → after ≡ end_request stream

abbrev after_of :
    Option RequestStream
    → Parse ((PublishDone × Option RequestStream) × Bytes)
    → Option RequestStream
after_of stream broken = stream
after_of stream protocol_violation = stream
after_of stream overread = stream
after_of stream (parsed (r, rest)) = r.1

done_refused : (stream : Option RequestStream) → can_be_done (end_request stream) ≡ false
unfolding can_be_done
done_refused none = refl
done_refused (some s) = ground arith

fields_end :
    (snprintf : GSnprintf) (version : ℕ) (stream : Option RequestStream) (bytes : Bytes)
    → Ends stream (publish_done_fields snprintf version stream bytes)
unfolding publish_done_fields
fields_end snprintf version stream bytes d after rest e =
    let (request_id, at_status, first, e1) = >>=-parsed _ _ e in
    let (status_code, at_count, second, e2) = >>=-parsed _ _ e1 in
    let (streams_count, at_reason, third, e3) = >>=-parsed _ _ e2 in
    let (reason, behind, fourth, e4) = >>=-parsed _ _ e3 in sym (ap (after_of stream) e4)

guarded :
    (stream : Option RequestStream) (a b : Bool)
    (p : Parse ((PublishDone × Option RequestStream) × Bytes))
    → Ends stream p
    → Ends stream (if a then broken else if b then protocol_violation else p)
guarded stream true b p h d after rest e = cc e
guarded stream false true p h d after rest e = cc e
guarded stream false false p h d after rest e = h d after rest e

-- From version 17 on, when a PUBLISH_DONE has been parsed on the stream of a request, another one there, of any
-- content that is not empty, violates the protocol.
pub publish_done_once :
    (snprintf : GSnprintf) (version : ℕ) (stream after : Option RequestStream)
    (bytes rest more : Bytes) (d : PublishDone)
    → version_17 ≤ version
    → parse_publish_done snprintf version stream bytes ≡ parsed ((d, after), rest)
    → 0 < length more
    → parse_publish_done snprintf version after more ≡ protocol_violation
unfolding parse_publish_done
publish_done_once snprintf version stream after bytes rest more d recent e some_more =
    let ended : after ≡ end_request stream =
      guarded stream (length bytes == 0) _ _ (fields_end snprintf version stream bytes) d after rest
        e in
    let t : (length more == 0) ≡ false = ground (arith, some_more) in
    let u : (leb version_17 version && not (can_be_done (end_request stream))) ≡ true =
      ground (arith, recent, done_refused stream) in
    rw (ended, t, u) refl
