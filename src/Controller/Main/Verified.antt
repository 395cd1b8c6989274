-- ===== src/Controller/Main/Verified.antt =====
-- cmd/controller/main.go: what the trust store lets the two connections of a run reach.
use ea_share.Base.{
  String, ◌≡◌, refl, ◌⊎◌, inl, inr, true, false, Option, none, some, Bytes, Bool-cases,
  Option-cases, arith, eq_iff,
}
use ea_share.Float.{Float}
use ea_share.Stream.{Writer}
use ea_share.Protocol.{Edge, Json}
use ea_share.Mousesync.{Hmac}
use ea_share.Addr.{Net, clip_addr}
use ea_share.Identity.{Crypto, fingerprint}
use ea_share.Controller.Trust.{
  KnownHosts, HostsJson, Casing, open_known_hosts, lookup, verify_connection, verify_pinned,
  accepted_pins,
}
use ea_share.Controller.Handshake.{
  Flags, proceed, connect_required, token_required, edge_required, bad_edge, check_flags,
  Authentication, authenticated, authenticate, Start, started, no_screen_info, unexpected,
  invalid_size, rejected, failed,
}
use ea_share.Controller.Clip.{Dialled}
use ea_share.Controller.Main.{
  Options, Surroundings, Run, Peer, main, dial_clip, share, connect, clip_writer, dial_and_verify,
  presented, with_flags, with_hosts, authenticated_or_not, capture_all, capture_edge, dial_at,
  dial_pinned,
}

module _ (fl : Float) (json : Json fl) (mac : Hmac) (net : Net) (crypto : Crypto)
    (hosts : HostsJson) (casing : Casing) (bytes : String → Bytes) (w : Surroundings fl)
    (o : Options) where
  -- The clipboard's peer, where one was connected to, has the fingerprint `fp`.
  abbrev pub IsPinned : String → Option Writer → Type 0
  IsPinned fp clip =
      (clip ≡ none)
      ⊎ ((a : String) × (der : Bytes) × (clip_addr net o.connect ≡ some a)
          × ((w.peer_at a).certificate ≡ some der)
          × (fingerprint crypto der ≡ fp))

  pinned_presents :
      (fp : String) (p : Peer)
      → dial_pinned fl json mac net crypto hosts casing bytes fp p ≡ true
      → (der : Bytes) × (p.certificate ≡ some der) × (fingerprint crypto der ≡ fp)
  unfolding dial_pinned presented verify_pinned
  pinned_presents fp p h = elim (Option-cases p.certificate) [
    | inl e ↦ ground (arith, e, h)
    | inr (der, e) ↦ (der, e, ground (arith, e, h, eq_iff (fingerprint crypto der) fp))
  ]

  dial_at-IsPinned :
      (fp : String) (addr : Option String)
      → clip_addr net o.connect ≡ addr
      → IsPinned fp (clip_writer (dial_at fl json mac net crypto hosts casing bytes w o fp addr))
  unfolding dial_at clip_writer
  dial_at-IsPinned fp none e = inl refl
  dial_at-IsPinned fp (some a) e =
      elim (Bool-cases (dial_pinned fl json mac net crypto hosts casing bytes fp (w.peer_at a))) [
        | inl h ↦
            let (der, c, same) = pinned_presents fp (w.peer_at a) h in inr (a, der, e, c, same)
        | inr h ↦ rw h (inl refl)
      ]

  capture_all-clip :
      (conn : Writer) → (capture_all fl json mac net crypto hosts casing bytes w conn).clip ≡ none
  unfolding capture_all
  capture_all-clip conn = ground arith

  capture_edge-clip :
      (edge : Edge) (clip : Option (Writer × Dialled)) (conn : Writer) (s : Start)
      → (capture_edge fl json mac net crypto hosts casing bytes w edge clip conn s).clip
        ≡ clip_writer clip
  unfolding capture_edge
  capture_edge-clip edge clip conn (started tw th udp) = ground arith
  capture_edge-clip edge clip conn (no_screen_info x) = refl
  capture_edge-clip edge clip conn (unexpected t) = refl
  capture_edge-clip edge clip conn (invalid_size a b) = refl

  -- What `main` establishes once the store has `fp` for the target.
  share-IsPinned :
      (kh : KnownHosts) (fp : String) (edge : Option Edge) (conn : Writer) (rest : Bytes)
      → lookup o.connect kh.entries ≡ some fp
      → IsPinned fp (share fl json mac net crypto hosts casing bytes w o kh edge conn rest).clip
  unfolding share dial_clip
  share-IsPinned kh fp none conn rest e = inl (capture_all-clip conn)
  share-IsPinned kh fp (some edge) conn rest e =
      rw (e, capture_edge-clip) (dial_at-IsPinned fp (clip_addr net o.connect) refl)

  authenticated_or_not-IsPinned :
      (kh : KnownHosts) (fp : String) (edge : Option Edge) (conn : Writer) (a : Authentication)
      → lookup o.connect kh.entries ≡ some fp
      → IsPinned fp
          (authenticated_or_not fl json mac net crypto hosts casing bytes w o kh edge
            (conn, a)).clip
  unfolding authenticated_or_not
  authenticated_or_not-IsPinned kh fp edge conn (authenticated rest) e =
      share-IsPinned kh fp edge conn rest e
  authenticated_or_not-IsPinned kh fp edge conn rejected e = inl refl
  authenticated_or_not-IsPinned kh fp edge conn (failed x) e = inl refl

  -- Either nothing is connected, or the store accepts the certificate of the main peer.
  abbrev IsVerified : KnownHosts → Run → Type 0
  IsVerified kh r =
      ((r.conn ≡ none) × (r.clip ≡ none))
      ⊎ ((der : Bytes) × ((w.peer_at o.connect).certificate ≡ some der)
          × ((verify_connection hosts casing o.consent o.connect (some (fingerprint crypto der))
                kh).1
              ≡ true)
          × IsPinned (fingerprint crypto der) r.clip)

  unpresented :
      (kh : KnownHosts) → (verify_connection hosts casing o.consent o.connect none kh).1 ≡ false
  unfolding verify_connection
  unpresented kh = refl

  dialled_pins :
      (kh : KnownHosts) (p : Peer)
      → (dial_and_verify fl json mac net crypto hosts casing bytes o p kh).1 ≡ true
      → (der : Bytes) × (p.certificate ≡ some der)
        × ((verify_connection hosts casing o.consent o.connect (some (fingerprint crypto der)) kh).1
            ≡ true)
        × (lookup o.connect
              (dial_and_verify fl json mac net crypto hosts casing bytes o p kh).0.entries
            ≡ some (fingerprint crypto der))
  unfolding dial_and_verify presented
  dialled_pins kh p h = elim (Option-cases p.certificate) [
    | inl e ↦ ground (arith, e, h, unpresented kh)
    | inr (der, e) ↦
        let fp = fingerprint crypto der in
        let ok : (verify_connection hosts casing o.consent o.connect (some fp) kh).1 ≡ true =
          ground (arith, e, h) in
        let pinned = accepted_pins hosts casing o.consent o.connect fp kh ok in
        (der, e, ok, ground (arith, e, h, ok, pinned))
  ]

  connect-IsVerified :
      (edge : Option Edge) (kh : KnownHosts)
      → IsVerified kh (connect fl json mac net crypto hosts casing bytes w o edge kh)
  unfolding connect
  connect-IsVerified edge kh =
      let p = w.peer_at o.connect in
      let d = dial_and_verify fl json mac net crypto hosts casing bytes o p kh in
      elim (Bool-cases d.1) [
        | inl h ↦
            let (der, c, ok, pinned) = dialled_pins kh p h in
            let (conn, a) = authenticate fl json (bytes o.token) o.udp_mouse p.writer p.replies in
            rw h (
              inr (
                der,
                c,
                ok,
                authenticated_or_not-IsPinned d.0 (fingerprint crypto der) edge conn a pinned,
              ))
        | inr h ↦ rw h (inl (refl, refl))
      ]

  abbrev pub IsSafe : Run → Type 0
  IsSafe r =
      ((r.conn ≡ none) × (r.clip ≡ none))
      ⊎ ((edge : Option Edge) × (kh : KnownHosts) × (check_flags o.connect o.token o.edge
              o.udp_mouse
            ≡ proceed edge)
          × (open_known_hosts hosts w.file_reads w.file ≡ some kh)
          × (der : Bytes) × ((w.peer_at o.connect).certificate ≡ some der)
          × ((verify_connection hosts casing o.consent o.connect (some (fingerprint crypto der))
                kh).1
              ≡ true)
          × IsPinned (fingerprint crypto der) r.clip)

  with_hosts-IsSafe :
      (edge : Option Edge) (kh : Option KnownHosts)
      → check_flags o.connect o.token o.edge o.udp_mouse ≡ proceed edge
      → open_known_hosts hosts w.file_reads w.file ≡ kh
      → IsSafe (with_hosts fl json mac net crypto hosts casing bytes w o edge kh)
  unfolding with_hosts
  with_hosts-IsSafe edge none f e = inl (refl, refl)
  with_hosts-IsSafe edge (some kh) f e = elim (connect-IsVerified edge kh) [
    | inl closed ↦ inl closed
    | inr (der, c, ok, pinned) ↦ inr (edge, kh, f, e, der, c, ok, pinned)
  ]

  with_flags-IsSafe :
      (f : Flags)
      → check_flags o.connect o.token o.edge o.udp_mouse ≡ f
      → IsSafe (with_flags fl json mac net crypto hosts casing bytes w o f)
  unfolding with_flags
  with_flags-IsSafe (proceed edge) e =
      with_hosts-IsSafe edge (open_known_hosts hosts w.file_reads w.file) e refl
  with_flags-IsSafe connect_required e = inl (refl, refl)
  with_flags-IsSafe token_required e = inl (refl, refl)
  with_flags-IsSafe edge_required e = inl (refl, refl)
  with_flags-IsSafe bad_edge e = inl (refl, refl)

  -- `main` connects only if the flags name an edge or none and the store can be read, and then only to a peer
  -- whose certificate the trust store accepts; it connects the clipboard only to the clipboard's address of the
  -- target, and only to a peer whose certificate has the same fingerprint.
  pub main-IsSafe : IsSafe (main fl json mac net crypto hosts casing bytes w o)
  unfolding main
  main-IsSafe = with_flags-IsSafe (check_flags o.connect o.token o.edge o.udp_mouse) refl
