-- ===== src/Controller/EdgeMath.antt =====
-- cmd/controller/edge_math.go: the geometry of edge switching.
pub mod Geometry
use ea_share.Base.{ℕ, ◌≡◌, Bool, false, if◌then◌else◌, ℤ, pos, negsuc, ◌≤ℤ◌, ltb_ℤ, add32, sub32}
use ea_share.Float.{Float, clamp01}
use ea_share.Protocol.{Edge}

module _ (fl : Float) where
  -- `int32(relPos * float64(n))`.
  abbrev pub scale : fl.F → ℤ → ℤ
  scale rel_pos n = fl.to_int32 (fl.mul rel_pos (fl.of_int n))

  -- Where a cursor that enters through `entry_edge` starts (also `entryPosition` of cmd/target/main.go).
  unfoldable pub entry_position : Edge → fl.F → ℤ → ℤ → ℤ × ℤ
  entry_position Edge.left rel_pos w h = (pos 0, scale rel_pos h)
  entry_position Edge.right rel_pos w h = (sub32 w (pos 1), scale rel_pos h)
  entry_position Edge.top rel_pos w h = (scale rel_pos w, pos 0)
  entry_position Edge.bottom rel_pos w h = (scale rel_pos w, sub32 h (pos 1))
  entry_position (Edge.other _) rel_pos w h = (pos 0, pos 0)

  -- How far along the edge the clamped release point is.
  unfoldable pub release_rel_pos : Edge → ℤ → ℤ → ℤ → ℤ → fl.F
  release_rel_pos Edge.left x y w h = clamp01 fl (fl.div (fl.of_int y) (fl.of_int h))
  release_rel_pos Edge.right x y w h = clamp01 fl (fl.div (fl.of_int y) (fl.of_int h))
  release_rel_pos Edge.top x y w h = clamp01 fl (fl.div (fl.of_int x) (fl.of_int w))
  release_rel_pos Edge.bottom x y w h = clamp01 fl (fl.div (fl.of_int x) (fl.of_int w))
  release_rel_pos (Edge.other _) x y w h = clamp01 fl (fl.div (fl.of_int x) (fl.of_int w))

  -- Where the controller's own cursor lands when control returns to it.
  unfoldable pub controller_warp_position : Edge → fl.F → ℤ → ℤ → ℤ → ℤ → ℤ × ℤ
  controller_warp_position Edge.left rel_pos bx by bw bh =
      (add32 bx (pos 1), add32 by (scale rel_pos bh))
  controller_warp_position Edge.right rel_pos bx by bw bh =
      (sub32 (add32 bx bw) (pos 2), add32 by (scale rel_pos bh))
  controller_warp_position Edge.top rel_pos bx by bw bh =
      (add32 bx (scale rel_pos bw), add32 by (pos 1))
  controller_warp_position Edge.bottom rel_pos bx by bw bh =
      (add32 bx (scale rel_pos bw), sub32 (add32 by bh) (pos 2))
  controller_warp_position (Edge.other _) rel_pos bx by bw bh = (bx, by)

-- Whether (x, y) has been pushed beyond the edge of a w by h screen.
unfoldable pub pushes_past : Edge → ℤ → ℤ → ℤ → ℤ → Bool
pushes_past Edge.left x y w h = ltb_ℤ x (pos 0)
pushes_past Edge.right x y w h = ltb_ℤ (sub32 w (pos 1)) x
pushes_past Edge.top x y w h = ltb_ℤ y (pos 0)
pushes_past Edge.bottom x y w h = ltb_ℤ (sub32 h (pos 1)) y
pushes_past (Edge.other _) x y w h = false

-- Whether (x, y), inside the screen, is strictly off the edge.
unfoldable pub has_moved_away : Edge → ℤ → ℤ → ℤ → ℤ → Bool
has_moved_away Edge.left x y w h = ltb_ℤ (pos 0) x
has_moved_away Edge.right x y w h = ltb_ℤ x (sub32 w (pos 1))
has_moved_away Edge.top x y w h = ltb_ℤ (pos 0) y
has_moved_away Edge.bottom x y w h = ltb_ℤ y (sub32 h (pos 1))
has_moved_away (Edge.other _) x y w h = false

unfoldable pub clamp_i : ℤ → ℤ → ℤ → ℤ
clamp_i v lo hi = if ltb_ℤ v lo then lo else if ltb_ℤ hi v then hi else v
