-- ===== src/Host/Agent/NaturalPixelLayout.antt =====
-- src/host/agent/natural_pixel_layout.h: the layout that "all channels" returns a buffer to.
use open_image_debugger.Prelude.{
  ◌≡◌, refl, Bool, true, false, ◌||◌, Option, none, some, if◌then◌else◌, pos, eqb_ℤ, Str, str_eq,
  codes, arith,
}
use open_image_debugger.Host.BufferModel.{
  BufferKind, local_file, debugger_symbol, BufferRecord, is_valid_pixel_layout,
  default_pixel_layout,
}

unfoldable pub is_isolation_layout : Str → Bool
is_isolation_layout layout =
    str_eq layout (codes "rrra") || str_eq layout (codes "ggga") || str_eq layout (codes "bbba")

pub record NaturalPixelLayoutResult : Type 0 where
  pub layout : Option Str
  pub cleared_isolation : Bool

abbrev pub is_local_file : BufferKind → Bool
is_local_file local_file = true
is_local_file debugger_symbol = false

unfoldable pub natural_pixel_layout :
    BufferRecord → (current_layout : Str) → NaturalPixelLayoutResult
natural_pixel_layout r current_layout =
    if is_valid_pixel_layout r.pixel_layout
    then record { layout = some r.pixel_layout; cleared_isolation = false }
    else if is_local_file r.kind || eqb_ℤ r.channels (pos 1)
    then record { layout = some default_pixel_layout; cleared_isolation = false }
    else if is_isolation_layout current_layout
    then record { layout = some default_pixel_layout; cleared_isolation = true }
    else record { layout = none; cleared_isolation = false }

-- The layout that the buffer renders with afterwards.
abbrev pub applied : Option Str → (current_layout : Str) → Str
applied none current_layout = current_layout
applied (some layout) current_layout = layout

default_valid : is_valid_pixel_layout default_pixel_layout ≡ true
unfolding is_valid_pixel_layout
default_valid = refl

-- If the current layout is valid, so is the one that the buffer renders with after "all channels",
-- and where the current layout is left alone it isolates no channel.
pub natural_pixel_layout-valid :
    (r : BufferRecord) (current_layout : Str)
    → is_valid_pixel_layout current_layout ≡ true
    → (is_valid_pixel_layout (applied (natural_pixel_layout r current_layout).layout current_layout)
        ≡ true)
      × ((natural_pixel_layout r current_layout).layout ≡ none
          → is_isolation_layout current_layout ≡ false)
unfolding natural_pixel_layout
natural_pixel_layout-valid r current_layout h = ground (arith, default_valid)
