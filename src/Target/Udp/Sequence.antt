-- ===== src/Target/Udp/Sequence.antt =====
-- Which packets of the UDP channel are applied, and in which order.
use ea_share.Base.{
  ℕ, zero, suc, ◌+◌, ◌≤◌, ◌<◌, ◌≡◌, ◌⊎◌, refl, ap, Option, none, some, List, [], ◌∷◌, arith, Bytes,
  length, take, All, map, leb, if◌then◌else◌, Bool-cases, inl, inr, IsByte, All-take,
}
use ea_share.Mousesync.{Hmac, Packet, packet_size, encode_packet, decode_packet}
use ea_share.Mousesync.Codec.{
  IsPacket, decode_packet-encode_packet, decode_packet_authentic, length-encode_packet,
}
use ea_share.Target.Udp.{UdpSession, stop, apply, apply_sized, receive, serve_mouse_udp, accept}

-- Every packet is newer than the one before, the first newer than `last`.
abbrev pub IsNewer : ℕ → List Packet → Type 0
IsNewer last [] = Unit {0}
IsNewer last (p ∷ ps) = (last < p.seq) × IsNewer p.seq ps

-- The packets of a list that are newer than all that stand before them.
abbrev pub newest : ℕ → List Packet → List Packet
newest last [] = []
newest last (p ∷ ps) = if leb p.seq last then newest last ps else p ∷ newest p.seq ps

take_all {ℓ} : {A : Type ℓ} (n : ℕ) (xs : List A) → length xs ≤ n → take n xs ≡ xs
take_all zero [] h = refl
take_all zero (x ∷ xs) h = absurd (omega arith)
take_all (suc n) [] h = refl
take_all (suc n) (x ∷ xs) h = ap (λ ys. x ∷ ys) (take_all n xs (omega arith))

-- A round applies nothing, or one packet that is newer than the last.
abbrev Accepts : UdpSession → UdpSession × List Packet → Type 0
Accepts s r =
    (r ≡ (s, []))
    ⊎ ((p : Packet) × (r ≡ (record s { last_seq = p.seq }, p ∷ [])) × (s.last_seq < p.seq))

module _ (mac : Hmac) where
  accept_cases : (s : UdpSession) (o : Option Packet) → Accepts s (accept mac s o)
  unfolding accept
  accept_cases s none = inl refl
  accept_cases s (some p) = elim (Bool-cases (leb p.seq s.last_seq)) [
    | inl old ↦ inl (rw old)
    | inr new ↦ inr (p, rw new, ground arith)
  ]

  apply_sized_cases :
      (buf : Bytes) (s : UdpSession)
      → (apply_sized mac buf s ≡ (s, []))
        ⊎ ((key : Bytes) × (length buf ≡ packet_size)
            × (s.key ≡ some key)
            × (apply_sized mac buf s ≡ accept mac s (decode_packet mac key buf)))
  unfolding apply_sized apply
  apply_sized_cases buf s = ground arith

  receive_cases : (d : Bytes) (s : UdpSession) → Accepts s (receive mac d s)
  unfolding receive
  receive_cases d s = elim (apply_sized_cases (take (packet_size + 1) d) s) [
    | inl e ↦ inl e
    | inr (key, l, k, e) ↦ rw e (accept_cases s (decode_packet mac key (take (packet_size + 1) d)))
  ]

  apply_sized-decoded :
      (key buf : Bytes) (s : UdpSession)
      → length buf ≡ packet_size
      → s.key ≡ some key
      → apply_sized mac buf s ≡ accept mac s (decode_packet mac key buf)
  unfolding apply_sized apply
  apply_sized-decoded key buf s l k = ground arith

  -- Whatever datagrams arrive, replayed, reordered or forged ones among them, the packets that are
  -- applied have strictly increasing sequence numbers, all above the last one applied before.
  pub serve_mouse_udp-IsNewer :
      (ds : List Bytes) (s : UdpSession) → IsNewer s.last_seq (serve_mouse_udp mac ds s).1
  unfolding serve_mouse_udp
  serve_mouse_udp-IsNewer [] s = tt
  serve_mouse_udp-IsNewer (d ∷ ds) s = elim (receive_cases d s) [
    | inl e ↦ rw e (serve_mouse_udp-IsNewer ds s)
    | inr (p, e, new) ↦ rw e (new, serve_mouse_udp-IsNewer ds (record s { last_seq = p.seq }))
  ]

  pub receive-encode_packet :
      (key : Bytes) (p : Packet) (s : UdpSession)
      → IsPacket p
      → s.key ≡ some key
      → receive mac (encode_packet mac key p) s
        ≡ (if leb p.seq s.last_seq then (s, []) else (record s { last_seq = p.seq }, p ∷ []))
  unfolding receive accept
  receive-encode_packet key p s ok k =
      let l = length-encode_packet mac key p in
      rw
        (
          take_all (packet_size + 1) (encode_packet mac key p) (omega arith),
          apply_sized-decoded key (encode_packet mac key p) s l k,
          decode_packet-encode_packet mac key p ok,
          accept,
        )
        refl

  -- When the datagrams are packets of the controller's, lost, repeated and reordered as they may be, the
  -- target applies exactly those that are newer than all that arrived before them.
  pub serve_mouse_udp-newest :
      (key : Bytes) (ps : List Packet) (s : UdpSession)
      → All IsPacket ps
      → s.key ≡ some key
      → (serve_mouse_udp mac (map (encode_packet mac key) ps) s).1 ≡ newest s.last_seq ps
  unfolding serve_mouse_udp
  serve_mouse_udp-newest key [] s ok k = refl
  serve_mouse_udp-newest key (p ∷ ps) s (hp, hs) k = elim (Bool-cases (leb p.seq s.last_seq)) [
    | inl old ↦ rw (receive-encode_packet key p s hp k, old) (serve_mouse_udp-newest key ps s hs k)
    | inr new ↦
        rw (receive-encode_packet key p s hp k, new)
          (ap (λ qs. p ∷ qs) (serve_mouse_udp-newest key ps (record s { last_seq = p.seq }) hs k))
  ]

  apply_sized-stop : (buf : Bytes) (s : UdpSession) → apply_sized mac buf (stop s) ≡ (stop s, [])
  unfolding apply_sized apply stop
  apply_sized-stop buf s = ground arith

  -- Once the session is stopped no datagram moves the cursor or changes the session.
  pub serve_mouse_udp-stop :
      (ds : List Bytes) (s : UdpSession) → serve_mouse_udp mac ds (stop s) ≡ (stop s, [])
  unfolding serve_mouse_udp receive
  serve_mouse_udp-stop [] s = refl
  serve_mouse_udp-stop (d ∷ ds) s =
      rw (apply_sized-stop (take (packet_size + 1) d) s, serve_mouse_udp-stop ds s) refl

  sized_authentic :
      (key buf : Bytes) (s : UdpSession) (p : Packet)
      → s.key ≡ some key
      → (apply_sized mac buf s).1 ≡ p ∷ []
      → decode_packet mac key buf ≡ some p
  unfolding apply_sized apply accept
  sized_authentic key buf s p k e = ground arith

  -- Every packet that is applied came in a datagram that is its encoding under the session's key, up to
  -- what the read buffer cuts off.
  pub receive_authentic :
      (key d : Bytes) (s : UdpSession) (p : Packet)
      → All IsByte d
      → s.key ≡ some key
      → (receive mac d s).1 ≡ p ∷ []
      → take (packet_size + 1) d ≡ encode_packet mac key p
  unfolding receive
  receive_authentic key d s p bytes k e =
      let buf = take (packet_size + 1) d in
      let found : decode_packet mac key buf ≡ some p = sized_authentic key buf s p k e in
      decode_packet_authentic mac key buf p (All-take IsByte (packet_size + 1) d bytes) found
