-- ===== src/Visualization/ShaderPixelLayout.antt =====
-- src/visualization/shader_pixel_layout.h: the layout that the shader gets, and the channel it shows.
use open_image_debugger.Prelude.{
  ℕ, refl, ◌≤◌, ◌<◌, ◌≡◌, [], ◌∷◌, ◌==◌, if◌then◌else◌, ℤ, pos, eqb_ℤ, ltb_ℤ, pos_part, Str, codes,
  arith,
}

unfoldable pub shader_pixel_layout : (declared_layout : Str) → (texture_channels : ℤ) → Str
shader_pixel_layout declared_layout texture_channels =
    if eqb_ℤ texture_channels (pos 1) then codes "rgba" else declared_layout

-- The channel that the first character names.
unfoldable pub named_channel : ℕ → ℕ
named_channel c = if c == b'g' then 1 else if c == b'b' then 2 else 0

unfoldable pub selected_channel_index : (layout : Str) → (texture_channels : ℤ) → ℕ
selected_channel_index [] texture_channels = 0
selected_channel_index (c ∷ layout) texture_channels =
    if ltb_ℤ (pos (named_channel c)) texture_channels then named_channel c else 0

-- With at least one texture channel, the selected channel is one of them; for one channel, the
-- layout that the shader gets selects the first.
pub selected_channel_index-lt :
    (layout : Str) (texture_channels : ℤ)
    → 1 ≤ pos_part texture_channels
    → (selected_channel_index layout texture_channels < pos_part texture_channels)
      × (selected_channel_index (shader_pixel_layout layout (pos 1)) (pos 1) ≡ 0)
unfolding selected_channel_index shader_pixel_layout named_channel
selected_channel_index-lt [] texture_channels h = (omega arith, refl)
selected_channel_index-lt (c ∷ layout) texture_channels h = (ground arith, refl)
