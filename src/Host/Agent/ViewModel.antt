-- ===== src/Host/Agent/ViewModel.antt =====
-- src/host/agent/view_model.h: the interface between the agent's requests and the viewer.
use open_image_debugger.Prelude.{ℕ, Bool, Option, List, ℤ, Str, codes}

pub record BufferInfo : Type 0 where
  pub name : Str
  pub display_name : Str
  pub width : ℤ
  pub height : ℤ
  pub channels : ℤ
  pub step : ℤ
  pub type : ℤ
  pub pixel_layout : Str
  pub transpose : Bool

-- `D` is the type of the doubles.
pub record ViewState (D : Type 0) : Type 0 where
  pub buffer : Option Str
  pub center_x : Option D
  pub center_y : Option D
  pub zoom : Option D
  pub rotation_deg : Option D
  pub channel : Str
  pub auto_contrast : Bool
  pub viewport_w : ℤ
  pub viewport_h : ℤ

-- An implementation with states `S`: the queries read the state, the setters give whether they
-- succeeded and the next state. `read_pixels` is `none` where it returns false.
pub record ViewModel (D S : Type 0) : Type 0 where
  pub buffer_count : S → ℕ
  pub buffer_at : ℕ → S → Option BufferInfo
  pub buffer_named : Str → S → Option BufferInfo
  pub read_pixels : Str → S → Option (List ℕ)
  pub select : Str → S → Bool × S
  pub selected_name : S → Option Str
  pub view_of : Str → S → Option (ViewState D)
  pub set_center : Str → (x y : D) → S → Bool × S
  pub set_zoom_power : Str → D → S → Bool × S
  pub set_rotation_rad : Str → D → S → Bool × S
  pub set_channel : Str → (mode index : ℤ) → S → Bool × S
  pub auto_contrast : S → Bool
  pub set_auto_contrast : Bool → S → S
  pub viewport_size : S → ℤ × ℤ

abbrev pub zoom_factor : Str
zoom_factor = codes "1.1"
