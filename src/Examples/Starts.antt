-- ===== src/Examples/Starts.antt =====
-- The two programs from their flags on, at concrete inputs.
use ea_share.Base.{
  ℕ, ◌≡◌, refl, arith, ◌⊎◌, String, Bool, true, false, Option, none, some, List, [], ◌∷◌, ◌++◌,
  Bytes, All, IsByte, pos,
}
use ea_share.Stream.{Writer}
use ea_share.Addr.{Net, clip_addr}
use ea_share.Protocol.Framing.{frame}
use ea_share.Identity.{Crypto, Files, fingerprint, load_or_generate_cert}
use ea_share.Identity
use ea_share.Controller.Handshake.{proceed, check_flags}
use ea_share.Controller.Trust.{open_known_hosts, verify_connection}
use ea_share.Controller.Main.{Options, Peer, Surroundings, shared, main, dial_and_verify}
use ea_share.Controller.Main.Verified.{IsSafe, main-IsSafe}
use ea_share.Controller.Legacy.{sending}
use ea_share.Target.Conn.{handle_conn}
use ea_share.Target.Conn.Service.{stream}
use ea_share.Target.Token.{start_token}
use ea_share.Target.Accept.{accept_conn}
use ea_share.Target.Accept.Single.{IsSingle}
use ea_share.Target.Main.{
  System, Target, serving, listening_target, Reach, here, next, main_accepted, clip_accepted,
}
use ea_share.Target.Main as TargetMain
use ea_share.Target.Main.Serving.{main-IsServing}
use ea_share.SessionLink.{direct_all}
use ea_share.MainLink.{main_session}
use ea_share.Examples.Rational.{rational}
use ea_share.Examples.Values.{codec, tag, setup, fresh, empty_writer}
use ea_share.Examples.Hosts.{
  hosts, casing, willing, empty_hosts, codes, number, crypto, all_access, key_9, no_files,
}
use ea_share.Examples.Devices.{received, bodies, received-Encodes}
use ea_share.Examples.Service.{network}

abbrev pub net : Net
net = record {
  split_host_port = λ a. some (a, "24800");
  join_host_port = λ h p. h;
  atoi = λ t. some (pos 24800);
  itoa = λ n. "24801";
}

abbrev pub bytes : String → Bytes
bytes s = 11 ∷ 12 ∷ []

abbrev pub options : Options
options = record {
  connect = "host:24800";
  token = "secret";
  edge = "";
  udp_mouse = false;
  consent = willing;
}

abbrev pub auth_body : Bytes
auth_body = 0 ∷ 0 ∷ 11 ∷ 12 ∷ []

-- A target that has answered what the controller sends.
abbrev pub answering : Peer
answering = record {
  connects = true;
  certificate = some (170 ∷ []);
  completes = true;
  writer = empty_writer;
  replies =
      (handle_conn rational codec setup (frame auth_body ++ stream rational codec setup bodies)
        fresh).conn.sent;
}

abbrev pub world : Surroundings rational
world = record {
  file_reads = true;
  file = none;
  peer_at = λ addr. answering;
  metrics = λ index. 1080;
  network = network;
  captures = true;
  events = [];
  received = received;
}

pub opened_store : open_known_hosts hosts true none ≡ some empty_hosts
unfolding open_known_hosts
opened_store = refl

flags : check_flags "host:24800" "secret" "" false ≡ proceed none
unfolding check_flags ea_share.Controller.Handshake.parse_edge
flags = refl

connected :
    (dial_and_verify rational codec tag net crypto hosts casing bytes options answering
      empty_hosts).1
    ≡ true
unfolding dial_and_verify verify_connection ea_share.Controller.Trust.lookup codes number
    ea_share.Controller.Trust.pin fingerprint ea_share.Base.digit
connected = refl

main_session_example :
    (after : Writer) × (main rational codec tag net crypto hosts casing bytes world options
      ≡ record { conn = some after; clip = none; ending = shared (sending after) })
    × ((handle_conn rational codec setup after.sent fresh).calls ≡ [] ++ direct_all received)
unfolding ea_share.Base.put_uint32
main_session_example =
    main_session rational codec tag net crypto hosts casing bytes world options setup empty_hosts
      bodies auth_body (4 ∷ []) (5 ∷ 1920 ∷ 1080 ∷ []) fresh flags refl refl opened_store connected
      refl refl refl received-Encodes (refl, refl, omega arith) (refl, refl, omega arith)
      (refl, refl, omega arith) (omega arith) (omega arith) refl

-- The same peer with an edge: its answers are no screen info for a clipboard, which is dialled all the same.
abbrev pub edged : Options
edged = record options { edge = "right" }

main-IsSafe_example :
    IsSafe rational codec tag net crypto hosts casing bytes world edged
      (main rational codec tag net crypto hosts casing bytes world edged)
main-IsSafe_example = main-IsSafe rational codec tag net crypto hosts casing bytes world edged

abbrev system : System
system = record {
  random = none;
  os = all_access;
  fresh = key_9;
  files = no_files;
  injector = true;
  tls_listens = λ a. true;
  resolves = λ a. some a;
  udp_listens = λ a. false;
}

abbrev target : Target
target = listening_target net crypto system ":24800" "secret" (170 ∷ []) []

target_started : TargetMain.main net crypto system ":24800" "secret" ≡ serving target
unfolding TargetMain.main start_token load_or_generate_cert Identity.generate
target_started = refl

-- A connection on each channel, and a second one on the main one.
abbrev busy : Target
busy = record target {
  main = accept_conn 6 (accept_conn 5 target.main);
  clip = accept_conn 7 target.clip;
}

reached : Reach target busy
unfolding listening_target ea_share.Target.Main.start_clipboard_listener clip_addr
reached =
    next (next (next here (main_accepted 5 refl)) (clip_accepted 7 refl refl))
      (main_accepted 6 refl)

main-IsServing_example :
    (lines : List String) × (start_token "secret" none ≡ some (target.token, lines))
    × ((load_or_generate_cert crypto system.os system.fresh system.files).1
        ≡ some target.certificate)
    × IsSingle busy.main
    × IsSingle busy.clip
    × (((busy.clip_listens ≡ false) × (busy.clip.handlers ≡ []))
        ⊎ ((a : String) × (clip_addr net ":24800" ≡ some a) × (true ≡ true)))
main-IsServing_example =
    main-IsServing net crypto system ":24800" "secret" target busy target_started reached
