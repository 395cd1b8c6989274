-- ===== src/Examples/Devices.antt =====
-- Input devices, injectors and a whole session without edge switching at concrete inputs.
use ea_share.Base.{
  take, ◌⊎◌, ◌≡◌, refl, arith, Bool, true, false, ◌&&◌, some, List, [], ◌∷◌, ◌++◌, Bytes, replicate,
  ℤ, pos, negsuc, eqb_ℤ, if◌then◌else◌,
}
use ea_share.Keys.Windows.{vk_to_name}
use ea_share.Capture.{Event, send_event}
use ea_share.Capture
use ea_share.Capture.Linux.{Reader, read_event}
use ea_share.Capture.Linux.Reports.{syn, travelled, read_motions, report_move}
use ea_share.Capture.Linux.Readers as Readers
use ea_share.Capture.Linux.Readers.{ReadLoop, round, Reach, here, next, look, read, stop}
use ea_share.Capture.Linux.Readers.Closing.{reached_closes}
use ea_share.Protocol.{Message, message, MsgType}
use ea_share.Controller.Legacy.{Received, captured, tick, sending, run_legacy, message_of}
use ea_share.SessionLink.{Encodes}
use ea_share.Examples.Rational.{rational}
use ea_share.Examples.Values.{codec}

abbrev quiet : Reader rational
quiet = record { events = []; dx = pos 0; dy = pos 0 }

abbrev motions : List (Bool × ℤ)
motions = (true, pos 3) ∷ (false, negsuc 0) ∷ (true, pos 2) ∷ []

report_move_example :
    let x = travelled true (pos 0) motions in
    let y = travelled false (pos 0) motions in
    read_event syn (read_motions motions quiet) ≡ (
      if eqb_ℤ x (pos 0) && eqb_ℤ y (pos 0)
      then quiet
      else record quiet { events = send_event rational (Capture.mouse_move x y) [] })
report_move_example = report_move motions quiet refl refl

-- A press of the key with code 30, and its release.
abbrev key_bytes : Bytes
key_bytes =
    replicate 16 0
    ++ (1 ∷ 0 ∷ 30 ∷ 0 ∷ 1 ∷ 0 ∷ 0 ∷ 0 ∷ [])
    ++ replicate 16 0
    ++ (1 ∷ 0 ∷ 30 ∷ 0 ∷ 0 ∷ 0 ∷ 0 ∷ 0 ∷ [])

plain_alt : vk_to_name 0x12 ≡ some "AltLeft"
unfolding vk_to_name ea_share.Keys.code_insert
plain_alt = refl

abbrev pub received : List (Received rational)
received = captured (Capture.mouse_move (pos 3) (pos 4)) ∷ captured Capture.hotkey_paste ∷ tick ∷ []

abbrev pub bodies : List (Message rational × Bytes)
bodies =
    (record (message rational MsgType.mouse_move) { dx = pos 3; dy = pos 4 }, 1 ∷ 3 ∷ 4 ∷ [])
    ∷ (message rational MsgType.ping, 2 ∷ [])
    ∷ []

pub received-Encodes : Encodes rational codec received bodies
unfolding message_of ea_share.Controller.Legacy.to_message
received-Encodes =
    Encodes.put refl refl refl (omega arith)
      (Encodes.skip refl (Encodes.put refl refl refl (omega arith) Encodes.done))

-- Two devices: the first delivers the press of a key and then the source is stopped.
abbrev two : Readers.LinuxSource rational
two = Readers.start_loops ("/dev/input/event0" ∷ "/dev/input/event3" ∷ [])

abbrev resting : ReadLoop
resting = record { dx = pos 0; dy = pos 0; reading = false }

abbrev looking : ReadLoop
looking = record resting { reading = true }

abbrev looked : Readers.LinuxSource rational
looked = record two { loops = looking ∷ resting ∷ [] }

abbrev pressed : Readers.LinuxSource rational
pressed = round [] looking (resting ∷ []) (take 24 key_bytes) looked

abbrev stopping : Readers.LinuxSource rational
stopping = record pressed { stopped = true }

reached : Reach two stopping
unfolding round Readers.start_loops
reached =
    next
      (next (next here (look [] (resting ∷ []) resting refl refl refl))
        (read [] (resting ∷ []) looking (take 24 key_bytes) refl refl))
      (stop refl)

reached_closes_example :
    (stopping.read_after_close ≡ false)
    × ((stopping.closed ≡ false) ⊎ (stopping.loops ≡ []))
    × Reach two (record stopping { loops = []; closed = true })
reached_closes_example =
    reached_closes ("/dev/input/event0" ∷ "/dev/input/event3" ∷ []) reached refl
