-- ===== src/Screen.antt =====
-- internal/screen/screen_windows.go: the virtual desktop's rectangle, in pixels.
use ea_share.Base.{ℕ, ◌%◌, ◌^◌, ◌==◌, Option, none, some, ℤ, int32, if◌then◌else◌}

pub record Bounds : Type 0 where
  pub x : ℤ
  pub y : ℤ
  pub w : ℤ
  pub h : ℤ

-- A point of the screen (`point` of the capture and screen packages).
pub record Point : Type 0 where
  pub px : ℤ
  pub py : ℤ

-- `getMetric`, on what `GetSystemMetrics` answers for an index.
unfoldable pub get_metric : (ℕ → ℕ) → ℕ → ℤ
get_metric metrics index = int32 (metrics index % 2 ^ 32)

unfoldable pub get_bounds : (ℕ → ℕ) → Bounds
unfolding get_metric
get_bounds metrics = record {
  x = get_metric metrics 76;
  y = get_metric metrics 77;
  w = get_metric metrics 78;
  h = get_metric metrics 79;
}

-- What a call of `GetCursorPos` returns and stores; `none` is an error.
unfoldable pub get_cursor_pos : ℕ → Point → Option Point
get_cursor_pos ret pt = if ret == 0 then none else some pt

-- `ownScreenBounds` of cmd/target/screen_windows.go.
unfoldable pub own_screen_bounds : (ℕ → ℕ) → ℤ × ℤ
own_screen_bounds metrics = let b = get_bounds metrics in (b.w, b.h)
