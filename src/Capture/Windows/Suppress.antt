-- ===== src/Capture/Windows/Suppress.antt =====
-- Which input a source keeps from the rest of the system, and which it sends.
use ea_share.Base.{
  true, ◌≤◌, length, ℕ, ◌≡◌, Bool, false, arith, some, none, if◌then◌else◌, ◌≢◌, pos, ℤ, sub32,
}
use ea_share.Float.{Float, FloatLaws, InUnit, clamp01, clamp01-InUnit}
use ea_share.Keys.{Name}
use ea_share.Screen.{Bounds, Point}
use ea_share.Protocol.{Edge}
use ea_share.Capture.{capacity, key, send_event}
use ea_share.Capture.Windows.{
  mouse_message, watch_edge, Source, send, forward_and_suppress, physical_key, is_v, edge_reached,
  mouse_proc, mouse_injected, wheel_notches,
}

-- For an edge-aware source and a key other than V: it is suppressed exactly while the source is
-- engaged, and then it is sent too; otherwise nothing is sent. The engagement does not change.
pub physical_key_mirrors_engaged :
    {fl : Float} (s : Source fl) (e : Edge) (name : Name) (down : Bool)
    → s.edge ≡ some e
    → is_v name ≡ false
    → let r = physical_key (some name) down s in
      (r.1 ≡ s.engaged)
      × (r.0.events ≡ (if s.engaged then send_event fl (key name down) s.events else s.events))
      × (r.0.engaged ≡ s.engaged)
unfolding physical_key forward_and_suppress send
physical_key_mirrors_engaged s e name down he hv = ground arith

-- A source with no edge suppresses no mouse message at all.
pub mouse_proc_legacy :
    {fl : Float} (n_code : ℤ) (w_param : ℕ) (pt : Point) (mouse_data flags : ℕ) (s : Source fl)
    → s.edge ≡ none
    → ((mouse_proc n_code w_param pt mouse_data flags s).1 ≡ false)
      × ((mouse_proc n_code w_param pt mouse_data flags s).0.engaged ≡ s.engaged)
unfolding mouse_proc mouse_injected wheel_notches forward_and_suppress send
mouse_proc_legacy n_code w_param pt mouse_data flags s he = ground arith

clamp01-div-InUnit :
    (fl : Float) (a b : ℤ)
    → FloatLaws fl
    → b ≢ pos 0
    → InUnit fl (clamp01 fl (fl.div (fl.of_int a) (fl.of_int b)))
clamp01-div-InUnit fl a b laws nz = clamp01-InUnit fl _ laws (laws.div_num a b nz)

-- The fraction of the edge at which the pointer crosses lies between 0 and 1, wherever the pointer is,
-- for bounds that are not empty.
pub edge_reached-InUnit :
    (fl : Float) (e : Edge) (b : Bounds) (pt : Point) (rel_pos : fl.F)
    → FloatLaws fl
    → b.w ≢ pos 0
    → b.h ≢ pos 0
    → edge_reached fl e b pt ≡ some rel_pos
    → InUnit fl rel_pos
unfolding edge_reached
edge_reached-InUnit fl e b pt r laws w h found = ground (
  arith,
  clamp01-div-InUnit fl (sub32 pt.py b.y) b.h laws h,
  clamp01-div-InUnit fl (sub32 pt.px b.x) b.w laws w,
)

-- If the channel is full when the pointer reaches the edge of a source that waits there, the crossing is
-- announced to nobody, and yet the source is engaged: that move of the pointer is suppressed, and so is
-- every further one, wherever it leads.
pub crossing_dropped :
    {fl : Float} (mouse_data : ℕ) (pt next : Point) (s : Source fl) (e : Edge) (rel_pos : fl.F)
    → s.edge ≡ some e
    → s.engaged ≡ false
    → edge_reached fl e s.bounds pt ≡ some rel_pos
    → capacity ≤ length s.events
    → let (t, suppressed) = mouse_message 0x0200 pt mouse_data s in
      (t ≡ record s { engaged = true })
      × (suppressed ≡ true)
      × (mouse_message 0x0200 next mouse_data t ≡ (t, true))
unfolding mouse_message watch_edge send send_event
crossing_dropped mouse_data pt next s e r he hn on full = ground arith
