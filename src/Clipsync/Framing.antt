-- ===== src/Clipsync/Framing.antt =====
-- What the clipboard framing promises.
use ea_share.Base.{
  ℕ, uint32_at-put_uint32_self, Bool-cases, inl, inr, ltb, ◌+◌, ◌≤◌, ◌-◌, ◌%◌, ◌^◌, ◌≡◌, refl, none,
  ◌∷◌, ◌++◌, arith, Bytes, length, put_uint32, append_assoc, append-nil, drop, uint32_at, [],
  length-put_uint32,
}
use ea_share.Stream.{
  ok, Writer, write_fits, write, read_full, read_full-append, read_full-length, >>=-eq-ok,
}
use ea_share.Clipsync.{max_frame_size, write_frame, read_frame, read_payload, kind_of}

abbrev pub frame : ℕ → Bytes → Bytes
frame kind payload = (kind ∷ put_uint32 (length payload)) ++ payload

pub write_frame_fits :
    (w : Writer) (kind : ℕ) (payload : Bytes)
    → length payload ≤ max_frame_size
    → length payload + 5 ≤ w.room
    → write_frame w kind payload
      ≡ (record { sent = w.sent ++ frame kind payload; room = w.room - (length payload + 5) }, none)
unfolding write_frame
write_frame_fits w kind [] small room = ground (
  arith,
  length-put_uint32 0,
  write_fits w (kind ∷ put_uint32 0),
  append-nil (kind ∷ put_uint32 0),
)
write_frame_fits w kind (x ∷ payload) small room =
    let hdr = kind ∷ put_uint32 (length (x ∷ payload) % 2 ^ 32) in
    ground (
      arith,
      length-put_uint32 (length (x ∷ payload) % 2 ^ 32),
      write_fits w hdr,
      write_fits (write w hdr).0 (x ∷ payload),
      append_assoc w.sent hdr (x ∷ payload),
    )

pub read_frame-frame :
    (kind : ℕ) (payload rest : Bytes)
    → length payload ≤ max_frame_size
    → read_frame (frame kind payload ++ rest) ≡ ok (kind, payload, rest)
unfolding read_frame
read_frame-frame kind payload rest small =
    let hdr = kind ∷ put_uint32 (length payload) in
    rw
      (
        append_assoc hdr payload rest,
        read_full-append 5 hdr (payload ++ rest)
            (omega (arith, length-put_uint32 (length payload))),
      )
      (ground (
        arith,
        uint32_at-put_uint32_self (length payload),
        read_full-append (length payload) payload rest refl,
      ))

-- For every kind and every payload within the limit, with room for the frame: the write succeeds and
-- appends one frame, and reading that frame gives the kind and the payload and leaves what follows.
pub read_frame-write_frame :
    (w : Writer) (kind : ℕ) (payload rest : Bytes)
    → length payload ≤ max_frame_size
    → length payload + 5 ≤ w.room
    → (f : Bytes) × (write_frame w kind payload
        ≡ (record { sent = w.sent ++ f; room = w.room - (length payload + 5) }, none))
      × (read_frame (f ++ rest) ≡ ok (kind, payload, rest))
read_frame-write_frame w kind payload rest small room = (
  frame kind payload,
  write_frame_fits w kind payload small room,
  read_frame-frame kind payload rest small,
)

read_payload_bounded :
    (kind n : ℕ) (r : Bytes) {x : ℕ × Bytes × Bytes}
    → read_payload kind n r ≡ ok x
    → (length x.1 ≡ n) × (length r ≡ n + length x.2) × (n ≤ max_frame_size)
unfolding read_payload
read_payload_bounded kind n r e = elim (Bool-cases (ltb max_frame_size n)) [
  | inl big ↦ ground arith
  | inr fits ↦
      let (p, h, t) = >>=-eq-ok (read_full n r) (λ p. ok (kind, p.0, p.1)) (rw fits at e) in
      ground (arith, read_full-length n r h)
]

-- A frame that was read has a payload within the limit, whatever length the peer claimed, and it took
-- exactly the header and the payload from the input.
pub read_frame_bounded :
    (r payload rest : Bytes) (kind : ℕ)
    → read_frame r ≡ ok (kind, payload, rest)
    → (length payload ≤ max_frame_size) × (length r ≡ 5 + length payload + length rest)
unfolding read_frame
read_frame_bounded r payload rest kind e =
    let (x, h, t) =
      >>=-eq-ok (read_full 5 r) (λ x. read_payload (kind_of x.0) (uint32_at (drop 1 x.0)) x.1) e in
    omega (
      arith,
      read_full-length 5 r h,
      read_payload_bounded (kind_of x.0) (uint32_at (drop 1 x.0)) x.1 t,
    )
