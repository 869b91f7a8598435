-- ===== src/Moq/Objects/Chunks.antt =====
-- What is parsed on a data stream does not depend on how its bytes are split.
use imquic.Base.{
  ℕ, zero, suc, ◌≤◌, ◌<◌, ◌≡◌, refl, sym, ap, ◌∙◌, arith, ◌⊎◌, inl, inr, true, false, List, [], ◌∷◌,
  ◌++◌, append-nil, append_assoc, Bytes, length, ◌==◌, Bool-cases, length-append, if◌then◌else◌,
}
use imquic.Wire.Reader.{Parse, broken, protocol_violation, overread, parsed}
use imquic.Moq.Objects.{Object, MoqStream}
use imquic.Moq.Objects.Receive.{
  Received, waiting, closed, out_of_bounds, cons_object, next_object, object_loop, append_and_parse,
}

abbrev pub extend_stream : MoqStream → Bytes → MoqStream
extend_stream stream more = record stream { buffer = stream.buffer ++ more }

abbrev pub extend_object : Parse (Object × MoqStream) → Bytes → Parse (Object × MoqStream)
extend_object broken more = broken
extend_object protocol_violation more = protocol_violation
extend_object overread more = overread
extend_object (parsed (o, next)) more = parsed (o, extend_stream next more)

-- A parser of objects that the loop can use: an object takes bytes, and unless the parser waits for bytes, it does not
-- look at those behind what it has.
pub record IsObjectParser (parse_object : MoqStream → Parse (Object × MoqStream)) : Type 0 where
  pub takes :
      (stream : MoqStream) {o : Object} {next : MoqStream}
      → parse_object stream ≡ parsed (o, next)
      → length next.buffer < length stream.buffer
  pub settled :
      (stream : MoqStream) (more : Bytes)
      → (parse_object stream ≡ broken)
        ⊎ (parse_object (extend_stream stream more) ≡ extend_object (parse_object stream) more)

abbrev pub prepend : List Object → Received → Received
prepend [] r = r
prepend (o ∷ os) r = cons_object o (prepend os r)

abbrev pub joined : List Bytes → Bytes
joined [] = []
joined (c ∷ cs) = c ++ joined cs

module _ (parse_object : MoqStream → Parse (Object × MoqStream)) where
  -- What more bytes add to what has been received.
  abbrev pub then_receive : Received → Bytes → Received
  then_receive (waiting stream os) more = prepend os (append_and_parse parse_object stream more)
  then_receive (closed os) more = closed os
  then_receive (out_of_bounds os) more = out_of_bounds os

  -- Chunks one after another.
  abbrev pub receive_chunks : Received → List Bytes → Received
  receive_chunks r [] = r
  receive_chunks r (c ∷ cs) = receive_chunks (then_receive r c) cs

  then_receive-cons :
      (o : Object) (r : Received) (more : Bytes)
      → then_receive (cons_object o r) more ≡ cons_object o (then_receive r more)
  then_receive-cons o (waiting stream os) more = refl
  then_receive-cons o (closed os) more = refl
  then_receive-cons o (out_of_bounds os) more = refl

  module _ (valid : IsObjectParser parse_object) where
    same_next :
        (stream : MoqStream) (p : Parse (Object × MoqStream)) (f g : MoqStream → Received)
        → ((o : Object) (next : MoqStream) → p ≡ parsed (o, next) → f next ≡ g next)
        → next_object parse_object stream p f ≡ next_object parse_object stream p g
    same_next stream broken f g h = refl
    same_next stream protocol_violation f g h = refl
    same_next stream overread f g h = refl
    same_next stream (parsed (o, next)) f g h = ap (cons_object o) (h o next refl)

    enough_fuel :
        (fuel fuel' : ℕ) (stream : MoqStream)
        → length stream.buffer ≤ fuel
        → length stream.buffer ≤ fuel'
        → object_loop parse_object fuel stream ≡ object_loop parse_object fuel' stream
    unfolding object_loop
    enough_fuel zero zero stream h k = refl
    enough_fuel zero (suc fuel') stream h k =
        let t : (length stream.buffer == 0) ≡ true = ground (arith, h) in rw t refl
    enough_fuel (suc fuel) zero stream h k =
        let t : (length stream.buffer == 0) ≡ true = ground (arith, k) in rw t refl
    enough_fuel (suc fuel) (suc fuel') stream h k =
        ap (λ r. if length stream.buffer == 0 then waiting stream [] else r)
          (same_next stream (parse_object stream) _ _ (λ o next e.
            (let less = valid.takes stream e in
              enough_fuel fuel fuel' next (omega (arith, less, h)) (omega (arith, less, k)))))

    module _ (stream : MoqStream) (more : Bytes) where
      waits :
          (fuel : ℕ)
          → length (stream.buffer ++ more) ≤ fuel
          → object_loop parse_object fuel (extend_stream stream more)
            ≡ then_receive (waiting stream []) more
      unfolding append_and_parse
      waits fuel h =
          enough_fuel fuel (length (stream.buffer ++ more)) (extend_stream stream more) h
            (omega arith)

      busy :
          (fuel : ℕ) (p : Parse (Object × MoqStream))
          → (length stream.buffer == 0) ≡ false
          → parse_object (extend_stream stream more) ≡ p
          → object_loop parse_object (suc fuel) (extend_stream stream more)
            ≡ next_object parse_object (extend_stream stream more) p (object_loop parse_object fuel)
      unfolding object_loop
      busy fuel p some e =
          let t : (length (stream.buffer ++ more) == 0) ≡ false =
            ground (arith, some, length-append stream.buffer more) in
          rw (t, e) refl

      -- One round, from what the parser comes to on the bytes before.
      one_round :
          (fuel fuel' : ℕ) (p : Parse (Object × MoqStream))
          → parse_object stream ≡ p
          → (p ≡ broken) ⊎ (parse_object (extend_stream stream more) ≡ extend_object p more)
          → (length stream.buffer == 0) ≡ false
          → length (stream.buffer ++ more) ≤ suc fuel'
          → ((next : MoqStream)
              → length next.buffer < length stream.buffer
              → object_loop parse_object fuel' (extend_stream next more)
                ≡ then_receive (object_loop parse_object fuel next) more)
          → object_loop parse_object (suc fuel') (extend_stream stream more)
            ≡ then_receive (next_object parse_object stream p (object_loop parse_object fuel)) more
      one_round fuel fuel' broken e s some h next_ih = waits (suc fuel') h
      one_round fuel fuel' protocol_violation e (inl c) some h next_ih = cc c
      one_round fuel fuel' overread e (inl c) some h next_ih = cc c
      one_round fuel fuel' (parsed (o, next)) e (inl c) some h next_ih = cc c
      one_round fuel fuel' protocol_violation e (inr k) some h next_ih =
          busy fuel' protocol_violation some k
      one_round fuel fuel' overread e (inr k) some h next_ih = busy fuel' overread some k
      one_round fuel fuel' (parsed (o, next)) e (inr k) some h next_ih =
          busy fuel' (parsed (o, extend_stream next more)) some k
          ∙ ap (cons_object o) (next_ih next (valid.takes stream e))
          ∙ sym (then_receive-cons o (object_loop parse_object fuel next) more)

    go_on :
        (fuel fuel' : ℕ) (stream : MoqStream) (more : Bytes)
        → length stream.buffer ≤ fuel
        → length (stream.buffer ++ more) ≤ fuel'
        → object_loop parse_object fuel' (extend_stream stream more)
          ≡ then_receive (object_loop parse_object fuel stream) more
    unfolding object_loop
    go_on zero fuel' stream more h k = waits stream more fuel' k
    go_on (suc fuel) zero stream more h k =
        let t : (length stream.buffer == 0) ≡ true =
          ground (arith, k, length-append stream.buffer more) in
        rw t (waits stream more zero k)
    go_on (suc fuel) (suc fuel') stream more h k = elim (Bool-cases (length stream.buffer == 0)) [
      | inl t ↦ rw t (waits stream more (suc fuel') k)
      | inr t ↦ rw t (
          one_round stream more fuel fuel' (parse_object stream) refl (valid.settled stream more) t
            k
            (λ next less. go_on fuel fuel' next more (omega (arith, less, h)) (
              omega (
                arith,
                less,
                k,
                length-append next.buffer more,
                length-append stream.buffer more,
              ))))
    ]

    -- Receiving some bytes and then others comes to what receiving all at once comes to.
    pub append_and_parse-append :
        (stream : MoqStream) (first more : Bytes)
        → append_and_parse parse_object stream (first ++ more)
          ≡ then_receive (append_and_parse parse_object stream first) more
    append_and_parse-append stream first more =
        let all = append_assoc stream.buffer first more in
        unfold append_and_parse in
        rw (← all) (
          go_on (length (stream.buffer ++ first)) (length ((stream.buffer ++ first) ++ more))
            (extend_stream stream first) more (omega arith) (omega arith))

    -- The loop over chunks comes to what all the bytes at once come to.
    pub receive_chunks-joined :
        (stream : MoqStream) (first : Bytes) (chunks : List Bytes)
        → receive_chunks (append_and_parse parse_object stream first) chunks
          ≡ append_and_parse parse_object stream (first ++ joined chunks)
    receive_chunks-joined stream first [] =
        ap (append_and_parse parse_object stream) (sym (append-nil first))
    receive_chunks-joined stream first (c ∷ cs) =
        ap (λ r. receive_chunks r cs) (sym (append_and_parse-append stream first c))
        ∙ receive_chunks-joined stream (first ++ c) cs
        ∙ ap (append_and_parse parse_object stream) (append_assoc first c (joined cs))
