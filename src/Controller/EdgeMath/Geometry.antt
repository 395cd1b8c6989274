-- ===== src/Controller/EdgeMath/Geometry.antt =====
-- The positions that the geometry computes stay on the screens they are meant for.
use ea_share.Base.{
  ◌≡◌, ◌≢◌, true, false, none, arith, ℤ, pos, ◌≤ℤ◌, ◌<ℤ◌, add32, sub32, int_laws, +ℤ_parts,
  -ℤ_parts, add32_exact, sub32_exact, IsInt32, ◌+ℤ◌, ◌-ℤ◌,
}
use ea_share.Float.{Float, FloatLaws, InUnit, fone, clamp01, clamp01-InUnit, clamp01_below}
use ea_share.Screen.{Bounds}
use ea_share.Protocol.{Edge}
use ea_share.Capture.Windows.{edge_reached}
use ea_share.Controller.EdgeMath.{
  entry_position, release_rel_pos, controller_warp_position, pushes_past, has_moved_away, clamp_i,
  scale,
}

-- One of the four edges that the flag `-edge` accepts.
abbrev pub IsSide : Edge → Type 0
IsSide Edge.left = Unit {0}
IsSide Edge.right = Unit {0}
IsSide Edge.top = Unit {0}
IsSide Edge.bottom = Unit {0}
IsSide (Edge.other _) = ⊥

-- A screen size as `runEdgeAware` accepts it.
abbrev pub IsSize : ℤ → ℤ → Type 0
IsSize w h = (pos 0 <ℤ w) × (pos 0 <ℤ h) × IsInt32 w × IsInt32 h

-- A pixel of a w by h screen.
abbrev pub OnScreen : ℤ → ℤ → ℤ → ℤ → Type 0
OnScreen x y w h = (pos 0 ≤ℤ x) × (x <ℤ w) × (pos 0 ≤ℤ y) × (y <ℤ h)

pred_size : (w : ℤ) → pos 0 <ℤ w → IsInt32 w → sub32 w (pos 1) ≡ w -ℤ pos 1
pred_size w h i = sub32_exact w (pos 1) (omega int_laws)

-- Clamping into the screen gives a pixel of it, and leaves a pixel where it is.
pub clamp_i-OnScreen :
    (x y w h : ℤ)
    → IsSize w h
    → OnScreen (clamp_i x (pos 0) (sub32 w (pos 1))) (clamp_i y (pos 0) (sub32 h (pos 1))) w h
unfolding clamp_i ◌-ℤ◌
clamp_i-OnScreen x y w h size = ground (arith, pred_size w, pred_size h)

-- For a screen size that the controller accepts and a fraction of the edge: the position at which a
-- cursor enters lies on the entry edge, and along it at most one pixel past the
-- far corner (at the fraction 1 itself).
pub entry_position_bounds :
    (fl : Float) (e : Edge) (r : fl.F) (w h : ℤ)
    → FloatLaws fl
    → IsSize w h
    → InUnit fl r
    → let (x, y) = entry_position fl e r w h in
      (pos 0 ≤ℤ x)
      × (x ≤ℤ w)
      × (pos 0 ≤ℤ y)
      × (y ≤ℤ h)
      × (pushes_past e x y w h ≡ false)
      × (has_moved_away e x y w h ≡ false)
unfolding entry_position pushes_past has_moved_away ◌-ℤ◌
entry_position_bounds fl e r w h laws size u =
    ground (arith, pred_size w, pred_size h, laws.scale_bounds r w u, laws.scale_bounds r h u)

-- A virtual desktop of at least three pixels each way, whose corners are int32s.
abbrev pub IsDesktop : Bounds → Type 0
IsDesktop b =
    IsInt32 b.x
    × IsInt32 b.y
    × IsInt32 b.w
    × IsInt32 b.h
    × IsInt32 (b.x +ℤ b.w)
    × IsInt32 (b.y +ℤ b.h)
    × (pos 3 ≤ℤ b.w)
    × (pos 3 ≤ℤ b.h)

-- An int32 sum with a part of the width is exact.
part_of : (x n w : ℤ) → IsInt32 x → IsInt32 (x +ℤ w) → pos 0 ≤ℤ n → n ≤ℤ w → add32 x n ≡ x +ℤ n
part_of x n w hx hw lo hi = add32_exact x n (omega int_laws)

end_of :
    (x w : ℤ)
    → IsInt32 x
    → IsInt32 (x +ℤ w)
    → pos 3 ≤ℤ w
    → (sub32 (add32 x w) (pos 1) ≡ x +ℤ w -ℤ pos 1) × (sub32 (add32 x w) (pos 2) ≡ x +ℤ w -ℤ pos 2)
end_of x w hx hw three =
    rw (add32_exact x w hw)
      (sub32_exact (x +ℤ w) (pos 1) (omega int_laws), sub32_exact (x +ℤ w) (pos 2) (omega int_laws))

-- For a desktop of at least three pixels each way, in int32s, and a fraction of the edge below 1: when
-- control returns, the controller's cursor is set to a pixel of the desktop and off the edge that it left by:
-- setting it there triggers no new crossing.
pub controller_warp_position_off_edge :
    (fl : Float) (e : Edge) (r : fl.F) (b : Bounds)
    → FloatLaws fl
    → IsDesktop b
    → InUnit fl r
    → fl.lt r (fone fl) ≡ true
    → let (x, y) = controller_warp_position fl e r b.x b.y b.w b.h in
      (edge_reached fl e b (record { px = x; py = y }) ≡ none)
      × (b.x ≤ℤ x)
      × (x <ℤ b.x +ℤ b.w)
      × (b.y ≤ℤ y)
      × (y <ℤ b.y +ℤ b.h)
unfolding controller_warp_position edge_reached
controller_warp_position_off_edge fl Edge.left r b laws desk u below = ground (
  arith,
  laws.scale_bounds r b.h u,
  laws.scale_below r b.h u below,
  part_of b.y (scale fl r b.h) b.h,
  +ℤ_parts b.y (scale fl r b.h),
  part_of b.x (pos 1) b.w,
  +ℤ_parts b.x (pos 1),
  +ℤ_parts b.x b.w,
  +ℤ_parts b.y b.h,
)
controller_warp_position_off_edge fl Edge.right r b laws desk u below = ground (
  arith,
  laws.scale_bounds r b.h u,
  laws.scale_below r b.h u below,
  part_of b.y (scale fl r b.h) b.h,
  +ℤ_parts b.y (scale fl r b.h),
  end_of b.x b.w,
  -ℤ_parts (b.x +ℤ b.w) (pos 1),
  -ℤ_parts (b.x +ℤ b.w) (pos 2),
  +ℤ_parts b.x b.w,
  +ℤ_parts b.y b.h,
)
controller_warp_position_off_edge fl Edge.top r b laws desk u below = ground (
  arith,
  laws.scale_bounds r b.w u,
  laws.scale_below r b.w u below,
  part_of b.x (scale fl r b.w) b.w,
  +ℤ_parts b.x (scale fl r b.w),
  part_of b.y (pos 1) b.h,
  +ℤ_parts b.y (pos 1),
  +ℤ_parts b.x b.w,
  +ℤ_parts b.y b.h,
)
controller_warp_position_off_edge fl Edge.bottom r b laws desk u below = ground (
  arith,
  laws.scale_bounds r b.w u,
  laws.scale_below r b.w u below,
  part_of b.x (scale fl r b.w) b.w,
  +ℤ_parts b.x (scale fl r b.w),
  end_of b.y b.h,
  -ℤ_parts (b.y +ℤ b.h) (pos 1),
  -ℤ_parts (b.y +ℤ b.h) (pos 2),
  +ℤ_parts b.x b.w,
  +ℤ_parts b.y b.h,
)
controller_warp_position_off_edge fl (Edge.other x) r b laws desk u below =
    ground (arith, +ℤ_parts b.x b.w, +ℤ_parts b.y b.h)

fraction_below :
    (fl : Float) (a b : ℤ)
    → FloatLaws fl
    → pos 0 ≤ℤ a
    → a <ℤ b
    → IsInt32 b
    → let r = clamp01 fl (fl.div (fl.of_int a) (fl.of_int b)) in
      InUnit fl r × (fl.lt r (fone fl) ≡ true)
fraction_below fl a b laws lo hi i =
    let b_pos : b ≢ pos 0 = λ e. omega (arith, lo, rw e at hi) in
    let v = fl.div (fl.of_int a) (fl.of_int b) in
    (
      clamp01-InUnit fl v laws (laws.div_num a b b_pos),
      clamp01_below fl v laws (laws.div_below a b lo hi i),
    )

-- A pixel of a screen is at a fraction of each of its edges, below 1.
pub release_rel_pos_below :
    (fl : Float) (e : Edge) (x y w h : ℤ)
    → FloatLaws fl
    → IsSize w h
    → OnScreen x y w h
    → let r = release_rel_pos fl e x y w h in InUnit fl r × (fl.lt r (fone fl) ≡ true)
unfolding release_rel_pos
release_rel_pos_below fl Edge.left x y w h laws size on =
    fraction_below fl y h laws (omega arith) (omega arith) (omega arith, omega arith)
release_rel_pos_below fl Edge.right x y w h laws size on =
    fraction_below fl y h laws (omega arith) (omega arith) (omega arith, omega arith)
release_rel_pos_below fl Edge.top x y w h laws size on =
    fraction_below fl x w laws (omega arith) (omega arith) (omega arith, omega arith)
release_rel_pos_below fl Edge.bottom x y w h laws size on =
    fraction_below fl x w laws (omega arith) (omega arith) (omega arith, omega arith)
release_rel_pos_below fl (Edge.other s) x y w h laws size on =
    fraction_below fl x w laws (omega arith) (omega arith) (omega arith, omega arith)
