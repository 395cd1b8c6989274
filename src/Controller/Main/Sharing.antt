-- ===== src/Controller/Main/Sharing.antt =====
-- cmd/controller/main.go: a run once it is authenticated, without an edge and with one.
use ea_share.Base.{◌≡◌, refl, String, true, Option, none, some, Bytes, ℤ}
use ea_share.Float.{Float}
use ea_share.Stream.{Writer}
use ea_share.Protocol.{Edge, Json}
use ea_share.Mousesync.{Hmac}
use ea_share.Addr.{Net}
use ea_share.Identity.{Crypto}
use ea_share.Controller.Trust.{KnownHosts, HostsJson, Casing, open_known_hosts, lookup}
use ea_share.Controller.EdgeLoop.{Loop, UdpClient, running, run}
use ea_share.Controller.Handshake.{
  proceed, check_flags, authenticated, authenticate, started, start_edge,
}
use ea_share.Controller.Legacy.{sending, run_legacy}
use ea_share.Controller.Main.{
  Options, Surroundings, shared, main, connect, share, dial_and_verify, with_flags, with_hosts,
  authenticated_or_not, capture_all, writer_of, capture_edge, shared_at_edge, session_at,
  first_loop, has_clip, clip_writer, dial_clip,
}

module _ (fl : Float) (json : Json fl) (mac : Hmac) (net : Net) (crypto : Crypto)
    (hosts : HostsJson) (casing : Casing) (bytes : String → Bytes) (w : Surroundings fl)
    (o : Options) where
  pub main_shares_all :
      (kh : KnownHosts) (conn after : Writer) (rest : Bytes)
      → check_flags o.connect o.token o.edge o.udp_mouse ≡ proceed none
      → open_known_hosts hosts w.file_reads w.file ≡ some kh
      → (dial_and_verify fl json mac net crypto hosts casing bytes o (w.peer_at o.connect) kh).1
        ≡ true
      → authenticate fl json
          (bytes o.token)
          o.udp_mouse
          (w.peer_at o.connect).writer
          (w.peer_at o.connect).replies
        ≡ (conn, authenticated rest)
      → w.captures ≡ true
      → run_legacy fl json w.received conn ≡ sending after
      → main fl json mac net crypto hosts casing bytes w o
        ≡ record { conn = some after; clip = none; ending = shared (sending after) }
  unfolding main with_flags with_hosts connect authenticated_or_not share capture_all writer_of
  main_shares_all kh conn after rest f h d a cap r =
      rw (f, main) (rw (h, d) (rw (a) (rw (cap, r) refl)))

  pub main_shares_at_edge :
      (edge : Edge) (kh : KnownHosts) (conn : Writer) (rest : Bytes) (tw th : ℤ)
      (udp : Option UdpClient) (last : Loop)
      → let dialled =
          dial_and_verify fl json mac net crypto hosts casing bytes o (w.peer_at o.connect) kh in
        let clip =
          dial_clip fl json mac net crypto hosts casing bytes w o
            (lookup o.connect dialled.0.entries) in
        check_flags o.connect o.token o.edge o.udp_mouse ≡ proceed (some edge)
        → open_known_hosts hosts w.file_reads w.file ≡ some kh
        → dialled.1 ≡ true
        → authenticate fl json
            (bytes o.token)
            o.udp_mouse
            (w.peer_at o.connect).writer
            (w.peer_at o.connect).replies
          ≡ (conn, authenticated rest)
        → start_edge fl json w.network o.udp_mouse rest ≡ started tw th udp
        → w.captures ≡ true
        → run fl json mac (session_at w edge (has_clip clip) tw th) w.events (first_loop udp conn)
          ≡ running last
        → main fl json mac net crypto hosts casing bytes w o ≡ record {
          conn = some last.conn;
          clip = clip_writer clip;
          ending = shared_at_edge (running last);
        }
  unfolding main with_flags with_hosts connect authenticated_or_not share capture_edge run dial_clip
  main_shares_at_edge edge kh conn rest tw th udp last f h d a st on r =
      rw (f, main) (rw (h, d) (rw (a) (rw (st) (rw (on, r) refl))))
