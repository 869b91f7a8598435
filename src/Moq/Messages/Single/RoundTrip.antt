-- ===== src/Moq/Messages/Single/RoundTrip.antt =====
-- What is sent with one number arrives.
use imquic.Base.{
  ℕ, ◌≤◌, ◌<◌, ◌≡◌, sym, ap, ◌∙◌, arith, false, ◌||◌, [], ◌++◌, append-nil, Bytes, length, ltb, leb,
  ◌==◌,
}
use imquic.Wire.Moqint.{version_16, version_17, write_moqint}
use imquic.Wire.Moqint.RoundTrip.{max_moqint, moqint_size-le}
use imquic.Wire.Moqint.Room.{write_moqint_pos, length-write_moqint}
use imquic.Wire.Writer.{Writer, stored, put_number, put_number-Stores}
use imquic.Wire.Reader.{Reader, parsed, Reads, number-Reads, last-Reads, pure-Reads}
use imquic.Moq.Messages.{add_message, message, next_message}
use imquic.Moq.Messages.Framing.{framed, add_message-Stores, next_message-framed}
use imquic.Moq.Messages.Single.{
  type_requests_blocked, type_publish_namespace_done, type_unsubscribe, type_fetch_cancel,
  add_requests_blocked, add_publish_namespace_done, add_unsubscribe, add_fetch_cancel,
}
use imquic.Moq.Messages.Single.Parse.{
  parse_requests_blocked, parse_publish_namespace_done, given_up, parse_unsubscribe, cancelled,
  parse_fetch_cancel,
}
use imquic.Moq.Subscriptions.{Subscriptions, receive_unsubscribe, receive_fetch_cancel}

-- What the builder stores is, before whatever bytes, the next message of the stream, and the parser takes its content
-- for that value.
abbrev pub Delivers {ℓ} :
    {A : Type ℓ} (version type : ℕ) → Writer → (room : ℕ) → Reader A → A → Type ℓ
Delivers version type w room r a =
    (bytes sent : Bytes) × (w room ≡ stored bytes)
    × ((rest : Bytes) → next_message version (bytes ++ rest) ≡ message type sent rest)
    × (r sent ≡ parsed (a, []))

module _ (version n : ℕ) (n_fits : n ≤ max_moqint version) where
  abbrev content : Bytes
  content = write_moqint version n 9

  number_delivered {ℓ} :
      {A : Type ℓ} (type room : ℕ) (r : Reader A) (a : A)
      → type ≤ 63
      → 20 ≤ room
      → r content ≡ parsed (a, [])
      → Delivers version type (add_message version type (put_number version n)) room r a
  number_delivered type room r a small big e =
      let type_fits : type ≤ max_moqint version = ground (arith, small) in
      let all = add_message-Stores version type type_fits (put_number-Stores version n n_fits) in
      let short : length content < 65536 =
        omega (arith, length-write_moqint version n n_fits, moqint_size-le version n) in
      (
        framed version type content,
        content,
        all.stores room (omega (arith, big)),
        λ rest.
            next_message-framed version type content rest type_fits (omega (arith, small)) short,
        e,
      )

  content_read {ℓ} :
      {A : Type ℓ} {r : Reader A} {a : A} → Reads r content a [] → r content ≡ parsed (a, [])
  content_read {r} h = ap r (sym (append-nil content)) ∙ h.reads

  some_content : (length content == 0) ≡ false
  some_content = let pos = write_moqint_pos version n n_fits in ground (arith, pos)

  -- In version 16, in buffers of 20 bytes and more, REQUESTS_BLOCKED and PUBLISH_NAMESPACE_DONE deliver a number that
  -- fits, UNSUBSCRIBE and FETCH_CANCEL deliver it and change the receiver's tables as giving up that request does.
  pub single_delivered :
      (room : ℕ)
      → version ≤ version_16
      → 20 ≤ room
      → (s : Subscriptions)
      → Delivers version type_requests_blocked
          (add_requests_blocked version n)
          room
          (parse_requests_blocked version)
          n
        × Delivers version type_publish_namespace_done
            (add_publish_namespace_done version n)
            room
            (parse_publish_namespace_done version)
            n
        × Delivers version type_unsubscribe
            (add_unsubscribe version n)
            room
            (parse_unsubscribe version s)
            (n, receive_unsubscribe s n)
        × Delivers version type_fetch_cancel
            (add_fetch_cancel version n)
            room
            (parse_fetch_cancel version s)
            (n, receive_fetch_cancel s n)
  unfolding add_requests_blocked parse_requests_blocked add_publish_namespace_done
      parse_publish_namespace_done add_unsubscribe parse_unsubscribe given_up add_fetch_cancel
      parse_fetch_cancel cancelled
  single_delivered room old big s =
      let t : (ltb room 1 || leb version_17 version) ≡ false = ground (arith, old, big) in
      let u : ltb room 2 ≡ false = ground (arith, big) in
      let v : leb version_17 version ≡ false = ground (arith, old) in
      let w = some_content in
      let plain = content_read (number-Reads version n n_fits) in
      rw t (
        rw u (
          number_delivered type_requests_blocked room _ n (omega arith) big (rw (v, w) plain),
          number_delivered type_publish_namespace_done room _ n (omega arith) big (rw w plain),
          number_delivered type_unsubscribe room _ _ (omega arith) big
              (rw w (content_read (last-Reads _ (number-Reads version n n_fits) (pure-Reads _)))),
          number_delivered type_fetch_cancel room _ _ (omega arith) big
              (rw w (content_read (last-Reads _ (number-Reads version n n_fits) (pure-Reads _)))),
        ))
