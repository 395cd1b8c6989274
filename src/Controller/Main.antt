-- ===== src/Controller/Main.antt =====
-- cmd/controller/main.go: `main` from the flags to the end of the run, with `dialAndVerify`, and the second
-- connection of cmd/controller/clipboard_windows.go.
pub mod Verified
pub mod Sharing
use ea_share.Base.{
  ℕ, String, Bool, true, false, ◌&&◌, Option, none, some, List, [], Bytes, ℤ, pos, if◌then◌else◌,
}
use ea_share.Float.{Float}
use ea_share.Stream.{Writer}
use ea_share.Screen.{get_bounds}
use ea_share.Protocol.{Edge, Json}
use ea_share.Mousesync.{Hmac}
use ea_share.Capture.{Event}
use ea_share.Addr.{Net, clip_addr}
use ea_share.Identity.{Crypto, fingerprint}
use ea_share.Controller.Trust.{
  KnownHosts, HostsJson, Consent, Casing, open_known_hosts, lookup, verify_connection,
  verify_pinned,
}
use ea_share.Controller.Handshake.{
  Flags, proceed, check_flags, Authentication, authenticated, authenticate, Network, Start, started,
  start_edge,
}
use ea_share.Controller.Clip.{Dialled, dialled, dial_clipboard}
use ea_share.Controller.Legacy.{Received, Sending, run_legacy, sending, lost as lost_sending}
use ea_share.Controller.EdgeLoop.{Session, Loop, UdpClient, Outcome, loop_of, run}

-- The flags; `-fingerprint` and `-yes` are in `consent`.
pub record Options : Type 0 where
  pub connect : String
  pub token : String
  pub edge : String
  pub udp_mouse : Bool
  pub consent : Consent

-- Who answers at an address: whether the TLS handshake gets as far as `VerifyConnection`, the certificate that
-- is presented, whether the handshake completes after that, and the connection with the replies on it.
pub record Peer : Type 0 where
  pub connects : Bool
  pub certificate : Option Bytes
  pub completes : Bool
  pub writer : Writer
  pub replies : Bytes

-- What `main` meets: the file of the trust store, the peers, the system's metrics, the network of the UDP channel,
-- whether the capture starts, and what it delivers in the edge mode and in the other one.
pub record Surroundings (fl : Float) : Type 0 where
  pub file_reads : Bool
  pub file : Option Bytes
  pub peer_at : String → Peer
  pub metrics : ℕ → ℕ
  pub network : Network
  pub captures : Bool
  pub events : List (Event fl)
  pub received : List (Received fl)

-- How `main` ends, or what its loop has come to.
pub data Ending : Type 0 where
  usage : Flags → Ending
  no_known_hosts not_connected no_capture : Ending
  not_authenticated : Authentication → Ending
  not_started : Start → Ending
  shared_at_edge : Outcome → Ending
  shared : Sending → Ending

-- The main connection and the clipboard's, each with what was sent on it if it was established.
pub record Run : Type 0 where
  pub conn : Option Writer
  pub clip : Option Writer
  pub ending : Ending

writer_of : Sending → Writer
writer_of (sending w) = w
writer_of (lost_sending w x) = w

unfoldable pub has_clip : Option (Writer × Dialled) → Bool
has_clip none = false
has_clip (some (w, dialled rest)) = true
has_clip (some (w, other)) = false

unfoldable pub clip_writer : Option (Writer × Dialled) → Option Writer
clip_writer none = none
clip_writer (some (w, d)) = some w

abbrev pub unconnected : Ending → Run
unconnected ending = record { conn = none; clip = none; ending = ending }

-- What `runEdgeAware` keeps during its loop.
unfoldable pub session_at : {fl : Float} → Surroundings fl → Edge → Bool → ℤ → ℤ → Session
session_at w edge clip_up tw th = record {
  edge = edge;
  target_w = tw;
  target_h = th;
  bounds = get_bounds w.metrics;
  has_clip = clip_up;
}

-- The variables before the first event.
unfoldable pub first_loop : Option UdpClient → Writer → Loop
first_loop udp conn = record {
  conn = conn;
  udp = udp;
  engaged = false;
  moved_away = false;
  vx = pos 0;
  vy = pos 0;
  actions = [];
}

-- The last parameter is the conversion of a string to its bytes.
module _ (fl : Float) (json : Json fl) (mac : Hmac) (net : Net) (crypto : Crypto)
    (hosts : HostsJson) (casing : Casing) (bytes : String → Bytes) where
  unfoldable pub presented : Option Bytes → Option String
  presented none = none
  presented (some der) = some (fingerprint crypto der)

  -- `dialAndVerify`: the store afterwards, and whether there is a connection.
  unfoldable pub dial_and_verify : Options → Peer → KnownHosts → KnownHosts × Bool
  unfolding presented
  dial_and_verify o p kh =
      let (kept, accepted) =
        verify_connection hosts casing o.consent o.connect (presented p.certificate) kh in
      if p.connects then (kept, accepted && p.completes) else (kh, false)

  dial_pinned : String → Peer → Bool
  unfolding presented
  dial_pinned fp p = p.connects && verify_pinned fp (presented p.certificate) && p.completes

  dial_at : Surroundings fl → Options → String → Option String → Option (Writer × Dialled)
  unfolding dial_pinned
  dial_at w o fp none = none
  dial_at w o fp (some a) =
      let p = w.peer_at a in
      if dial_pinned fp p then some (dial_clipboard (bytes o.token) p.writer p.replies) else none

  -- The clipboard's connection, with the fingerprint that the store has for the target.
  unfoldable pub dial_clip : Surroundings fl → Options → Option String → Option (Writer × Dialled)
  unfolding dial_at
  dial_clip w o none = none
  dial_clip w o (some fp) = dial_at w o fp (clip_addr net o.connect)

  -- `runEdgeAware` past its start, on the connection as the authentication left it.
  capture_edge : Surroundings fl → Edge → Option (Writer × Dialled) → Writer → Start → Run
  unfolding has_clip clip_writer session_at first_loop
  capture_edge w edge clip conn (started tw th udp) =
      let session = session_at w edge (has_clip clip) tw th in
      let out = run fl json mac session w.events (first_loop udp conn) in
      if w.captures
      then record {
        conn = some (loop_of out).conn;
        clip = clip_writer clip;
        ending = shared_at_edge out;
      }
      else record { conn = some conn; clip = clip_writer clip; ending = no_capture }
  capture_edge w edge clip conn other = record {
    conn = some conn;
    clip = clip_writer clip;
    ending = not_started other;
  }

  capture_all : Surroundings fl → Writer → Run
  unfolding writer_of
  capture_all w conn =
      let out = run_legacy fl json w.received conn in
      if w.captures
      then record { conn = some (writer_of out); clip = none; ending = shared out }
      else record { conn = some conn; clip = none; ending = no_capture }

  -- `main` once it is authenticated, with the store of its known hosts and what is left of the replies.
  unfoldable pub share : Surroundings fl → Options → KnownHosts → Option Edge → Writer → Bytes → Run
  unfolding capture_edge capture_all
  share w o kh none conn rest = capture_all w conn
  share w o kh (some edge) conn rest =
      capture_edge w edge (dial_clip w o (lookup o.connect kh.entries)) conn
        (start_edge fl json w.network o.udp_mouse rest)

  authenticated_or_not :
      Surroundings fl → Options → KnownHosts → Option Edge → Writer × Authentication → Run
  unfolding share
  authenticated_or_not w o kh edge (conn, authenticated rest) = share w o kh edge conn rest
  authenticated_or_not w o kh edge (conn, other) = record {
    conn = some conn;
    clip = none;
    ending = not_authenticated other;
  }

  -- `main` once the flags name an edge or none.
  unfoldable pub connect : Surroundings fl → Options → Option Edge → KnownHosts → Run
  unfolding authenticated_or_not
  connect w o edge kh =
      let p = w.peer_at o.connect in
      let (kept, connected) = dial_and_verify o p kh in
      if connected
      then authenticated_or_not w o kept edge
          (authenticate fl json (bytes o.token) o.udp_mouse p.writer p.replies)
      else unconnected not_connected

  with_hosts : Surroundings fl → Options → Option Edge → Option KnownHosts → Run
  unfolding connect
  with_hosts w o edge none = unconnected no_known_hosts
  with_hosts w o edge (some kh) = connect w o edge kh

  with_flags : Surroundings fl → Options → Flags → Run
  unfolding with_hosts
  with_flags w o (proceed edge) = with_hosts w o edge (open_known_hosts hosts w.file_reads w.file)
  with_flags w o other = unconnected (usage other)

  unfoldable pub main : Surroundings fl → Options → Run
  unfolding with_flags
  main w o = with_flags w o (check_flags o.connect o.token o.edge o.udp_mouse)
