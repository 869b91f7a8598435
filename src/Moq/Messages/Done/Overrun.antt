-- ===== src/Moq/Messages/Done/Overrun.antt =====
-- A reason that is too long for the buffer.
use imquic.Base.{
  ℕ, ◌-◌, ◌≤◌, ◌<◌, ◌≡◌, refl, ap, arith, inl, inr, true, false, not, ◌&&◌, ◌||◌, Bool-cases, some,
  Bytes, length, ltb, leb,
}
use imquic.Wire.Moqint.{version_16, version_17}
use imquic.Wire.Writer.{Writer, overrun}
use imquic.Wire.Writer.Overrun.{
  Overruns, put_number-Keeps, when-Keeps, put_bytes-Overruns, >>-Overruns,
}
use imquic.Moq.Messages.{behind_length, put_content, add_message}
use imquic.Moq.Messages.Reason.{sizeof_reason}
use imquic.Moq.Messages.Reason.Build.{put_reason}
use imquic.Moq.Messages.Done.{type_publish_done}
use imquic.Moq.Messages.Done.Build.{done_content, add_publish_done}

put_content-Overruns :
    {content : Writer} {n : ℕ} → Overruns content n → Overruns (put_content content) n
unfolding put_content
put_content-Overruns {content} o = record {
  overruns = λ room r. elim (Bool-cases (ltb room 2)) [
    | inl t ↦ rw t refl
    | inr t ↦ rw t (ap behind_length (o.overruns (room - 2) (omega (arith, r))))
  ];
}

message-Overruns :
    (version request_id status streams_count : ℕ) (text : Bytes) {n : ℕ}
    → n < length text
    → Overruns
        (add_message version type_publish_done
          (done_content version request_id status streams_count (some text)))
        n
unfolding add_message done_content put_reason
message-Overruns version request_id status streams_count text h =
    >>-Overruns (put_number-Keeps version type_publish_done) (
      put_content-Overruns (
        >>-Overruns (when-Keeps (leb version version_16) (put_number-Keeps version request_id)) (
          >>-Overruns (put_number-Keeps version status) (
            >>-Overruns (put_number-Keeps version streams_count)
              (>>-Overruns (put_number-Keeps version (length text)) (put_bytes-Overruns text h))))))

-- In a buffer of 5 bytes and more, for a stream, a PUBLISH_DONE with a reason that is longer than the buffer and has
-- at most 1024 bytes passes the builder's tests, and is stored past the end.
pub add_publish_done_overrun :
    (version request_id status streams_count : ℕ) (text : Bytes) (room : ℕ)
    → 5 ≤ room
    → room < length text
    → length text ≤ sizeof_reason
    → add_publish_done version true request_id status streams_count (some text) room ≡ overrun
unfolding add_publish_done
add_publish_done_overrun version request_id status streams_count text room big long allowed =
    let t : (ltb room 5 || ltb sizeof_reason (length text) || leb version_17 version && not true)
        ≡ false =
      ground (arith, big, allowed) in
    rw t (
      (message-Overruns version request_id status streams_count text long).overruns room
        (omega arith))
