-- ===== src/Capture/Linux/Readers.antt =====
-- internal/capture/capture_linux.go: the goroutines of `Start`, one `readLoop` for each device and one that closes the
-- channel after them, with `Stop`.
pub mod Closing
use ea_share.Base.{
  String, ◌≡◌, Bool, true, false, List, [], ◌∷◌, ◌++◌, Bytes, ℤ, pos, if◌then◌else◌,
}
use ea_share.Float.{Float}
use ea_share.Capture.{Event}
use ea_share.Capture.Linux.{InputEvent, input_event, Reader, read_event}

-- The variables of one `readLoop`, and whether it has passed the `select` on `stopCh` and reads the device.
pub record ReadLoop : Type 0 where
  pub dx : ℤ
  pub dy : ℤ
  pub reading : Bool

-- The channel, whether it is closed, whether `stopCh` is, the loops that have not returned, and whether one came to
-- an event although the channel was closed.
pub record LinuxSource (fl : Float) : Type 0 where
  pub events : List (Event fl)
  pub closed : Bool
  pub stopped : Bool
  pub loops : List ReadLoop
  pub read_after_close : Bool

started_loops : List String → List ReadLoop
started_loops [] = []
started_loops (p ∷ ps) = record { dx = pos 0; dy = pos 0; reading = false } ∷ started_loops ps

module _ {fl : Float} where
  -- `Start` on the devices that it opened, by their paths (`start_devices`).
  unfoldable pub start_loops : List String → LinuxSource fl
  unfolding started_loops
  start_loops opened = record {
    events = [];
    closed = false;
    stopped = false;
    loops = started_loops opened;
    read_after_close = false;
  }

  -- The rest of a round, once a loop has read the bytes of an event.
  unfoldable pub round :
      List ReadLoop → ReadLoop → List ReadLoop → Bytes → LinuxSource fl → LinuxSource fl
  round before l after buf s =
      let r : Reader fl =
        read_event (input_event buf) (record { events = s.events; dx = l.dx; dy = l.dy }) in
      record s {
        events = r.events;
        loops = before ++ (record { dx = r.dx; dy = r.dy; reading = false } ∷ after);
        read_after_close = if s.closed then true else s.read_after_close;
      }

  -- The goroutines, the calls of `Stop` and the receiver of the channel, in any order. A loop returns where it sees
  -- that `stopCh` is closed, and where a read fails, as it does once `Stop` has closed the device.
  pub data Step : LinuxSource fl → LinuxSource fl → Type 0 where
    look :
        {s : LinuxSource fl} (before after : List ReadLoop) (l : ReadLoop)
        → s.loops ≡ before ++ (l ∷ after)
        → l.reading ≡ false
        → s.stopped ≡ false
        → Step s (record s { loops = before ++ (record l { reading = true } ∷ after) })
    see_stop :
        {s : LinuxSource fl} (before after : List ReadLoop) (l : ReadLoop)
        → s.loops ≡ before ++ (l ∷ after)
        → l.reading ≡ false
        → s.stopped ≡ true
        → Step s (record s { loops = before ++ after })
    read :
        {s : LinuxSource fl} (before after : List ReadLoop) (l : ReadLoop) (buf : Bytes)
        → s.loops ≡ before ++ (l ∷ after)
        → l.reading ≡ true
        → Step s (round before l after buf s)
    read_failed :
        {s : LinuxSource fl} (before after : List ReadLoop) (l : ReadLoop)
        → s.loops ≡ before ++ (l ∷ after)
        → l.reading ≡ true
        → Step s (record s { loops = before ++ after })
    all_done :
        {s : LinuxSource fl} → s.loops ≡ [] → s.closed ≡ false → Step s (record s { closed = true })
    -- A second call of `Stop` would close `stopCh` again, which panics.
    stop : {s : LinuxSource fl} → s.stopped ≡ false → Step s (record s { stopped = true })
    received :
        {s : LinuxSource fl} (e : Event fl) (es : List (Event fl))
        → s.events ≡ e ∷ es
        → Step s (record s { events = es })

  pub data Reach (first : LinuxSource fl) : LinuxSource fl → Type 0 where
    here : Reach first first
    next : {s t : LinuxSource fl} → Reach first s → Step s t → Reach first t
