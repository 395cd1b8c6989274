-- ===== src/Protocol/Framing.antt =====
-- What framing promises: a written message is read back, and no frame is longer than the limit.
use ea_share.Base.{
  ℕ, length-put_uint32, Bool-cases, Option-cases, inl, inr, ltb, ◌+◌, ◌≤◌, ◌<◌, ◌-◌, ◌%◌, ◌^◌, ◌≡◌,
  refl, sym, ap, length-append, uint32_at-put_uint32_self, Option, none, some, [], ◌∷◌, ◌++◌, arith,
  Bytes, length, put_uint32, uint32_at-put_uint32, append_split, append_assoc, append-nil,
  uint32_at,
}
use native.Mathlib.Decide.{dec_lt}
use ea_share.Float.{Float}
use ea_share.Stream.{
  ok, Writer, write_fits, write, read_full, read_full-append, read_full-length, IsEof,
  read_full_short, Extends, Extends-same, Extends-then, Extends-write, Error, >>=-eq-ok, IsEof-bind,
}
use ea_share.Protocol.{
  Message, Json, max_message_size, write_message, read_message, write_body, read_body, decode_body,
}

-- The bytes of a frame.
abbrev pub frame : Bytes → Bytes
frame body = put_uint32 (length body) ++ body

module _ (fl : Float) (json : Json fl) where
  -- With room for the frame it is appended whole.
  pub write_message_fits :
      (w : Writer) (m : Message fl) (body : Bytes)
      → json.marshal m ≡ some body
      → length body ≤ max_message_size
      → length body + 4 ≤ w.room
      → write_message fl json w m
        ≡ (record { sent = w.sent ++ frame body; room = w.room - (length body + 4) }, none)
  unfolding write_message
  write_message_fits w m body e small room = ground (
    arith,
    length-put_uint32 (length body % 2 ^ 32),
    write_fits w (put_uint32 (length body % 2 ^ 32)),
    write_fits (write w (put_uint32 (length body % 2 ^ 32))).0 body,
    append_assoc w.sent (put_uint32 (length body)) body,
  )

  pub read_message-frame :
      (m : Message fl) (body rest : Bytes)
      → json.unmarshal body ≡ some m
      → length body ≤ max_message_size
      → read_message fl json (frame body ++ rest) ≡ ok (m, rest)
  unfolding read_message
  read_message-frame m body rest e small =
      rw
        (
          append_assoc (put_uint32 (length body)) body rest,
          read_full-append 4 (put_uint32 (length body)) (body ++ rest)
              (sym (length-put_uint32 (length body))),
        )
        (ground (
          arith,
          uint32_at-put_uint32 (length body) [],
          append-nil (put_uint32 (length body)),
          read_full-append (length body) body rest refl,
        ))

  -- With JSON that decodes what it encoded, a body within the limit and room for the frame: the write
  -- succeeds and appends one frame, and reading that frame gives the message and leaves what follows.
  pub read_message-write_message :
      (w : Writer) (m : Message fl) (body rest : Bytes)
      → json.marshal m ≡ some body
      → json.unmarshal body ≡ some m
      → length body ≤ max_message_size
      → length body + 4 ≤ w.room
      → (f : Bytes) × (write_message fl json w m
          ≡ (record { sent = w.sent ++ f; room = w.room - (length body + 4) }, none))
        × (read_message fl json (f ++ rest) ≡ ok (m, rest))
  read_message-write_message w m body rest e d small room =
      (frame body, write_message_fits w m body e small room, read_message-frame m body rest d small)

  write_body-Extends :
      (w : Writer) (body : Bytes) → Extends (4 + max_message_size) w (write_body fl json w body).0
  unfolding write_body
  write_body-Extends w body = elim (Bool-cases (ltb max_message_size (length body))) [
    | inl h ↦ rw h (Extends-same _ w)
    | inr h ↦ rw h (after (write w hdr).1 (ground arith))
  ]
    where
      hdr : Bytes
      hdr = put_uint32 (length body % 2 ^ 32)

      after :
          (e : Option Error)
          → length body ≤ max_message_size
          → Extends
              (4 + max_message_size)
              w
              (elim e as (λ x. Writer × Option Error) [
                | some x ↦ ((write w hdr).0, some x)
                | none ↦ write (write w hdr).0 body
              ]).0
      after none l =
          Extends-then (length hdr) (length body) _ w (write w hdr).0 (write (write w hdr).0 body).0
            (Extends-write w hdr) (Extends-write (write w hdr).0 body)
            (omega (arith, length-put_uint32 (length body % 2 ^ 32)))
      after (some x) l =
          Extends-then (length hdr) 0 _ w (write w hdr).0 (write w hdr).0 (Extends-write w hdr)
            (Extends-same 0 (write w hdr).0)
            (omega (arith, length-put_uint32 (length body % 2 ^ 32)))

  -- On every branch, errors included, the bytes sent before stay in front, and at most the header and
  -- `max_message_size` bytes are added.
  pub write_message_bounded :
      (w : Writer) (m : Message fl) → Extends (4 + max_message_size) w (write_message fl json w m).0
  unfolding write_message
  write_message_bounded w m = elim (Option-cases (json.marshal m)) [
    | inl e ↦ rw (e, write_message) (Extends-same _ w)
    | inr (body, e) ↦ rw (e, write_message) (write_body-Extends w body)
  ]

  read_body_bounded :
      (n : ℕ) (r : Bytes) {x : Message fl × Bytes}
      → read_body fl json n r ≡ ok x
      → (length r ≡ n + length x.1) × (n ≤ max_message_size)
  unfolding read_body decode_body
  read_body_bounded n r e = elim (Bool-cases (ltb max_message_size n)) [
    | inl big ↦ ground arith
    | inr fits ↦
        let (p, h, t) =
          >>=-eq-ok (read_full n r) (λ p. decode_body fl json p.0 p.1) (rw fits at e) in
        ground (arith, read_full-length n r h)
  ]

  read_body_short :
      (n : ℕ) (r : Bytes) → n ≤ max_message_size → length r < n → IsEof (read_body fl json n r)
  unfolding read_body
  read_body_short n r small h = elim (Bool-cases (ltb max_message_size n)) [
    | inl big ↦ absurd (ground arith)
    | inr fits ↦ rw fits (IsEof-bind (read_full n r) _ (read_full_short n r h))
  ]

  -- A message that was read took the header and at most `max_message_size` bytes of the input.
  pub read_message_bounded :
      (r rest : Bytes) (m : Message fl)
      → read_message fl json r ≡ ok (m, rest)
      → (length rest + 4 ≤ length r) × (length r ≤ length rest + 4 + max_message_size)
  unfolding read_message
  read_message_bounded r rest m e =
      let (x, h, t) = >>=-eq-ok (read_full 4 r) (λ x. read_body fl json (uint32_at x.0) x.1) e in
      omega (arith, read_full-length 4 r h, read_body_bounded (uint32_at x.0) x.1 t)

  -- A frame that is cut short is never read as a message: the reader reports the end of its input.
  pub read_message_cut :
      (body front back : Bytes) (x : ℕ)
      → length body ≤ max_message_size
      → put_uint32 (length body) ++ body ≡ front ++ (x ∷ back)
      → IsEof (read_message fl json front)
  unfolding read_message
  read_message_cut body front back x small e = elim (dec_lt (length front) 4) [
    | yes h ↦ IsEof-bind (read_full 4 front) _ (read_full_short 4 front h)
    | no h ↦
        let hdr = put_uint32 (length body) in
        let four = length-put_uint32 (length body) in
        let (p, f, b) = append_split hdr body front (x ∷ back) (omega arith) e in
        rw (f, read_full-append 4 hdr p (sym four))
          (rw (uint32_at-put_uint32_self (length body) (omega arith)) (
            read_body_short (length body) p small
              (omega (arith, ap length b, length-append p (x ∷ back)))))
  ]
