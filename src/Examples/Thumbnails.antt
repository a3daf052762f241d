-- ===== src/Examples/Thumbnails.antt =====
-- A list of flags for the textures, the newest first: a texture is named by its place from the end. A stage
-- is whether its icon renders.
use open_image_debugger.Prelude.{
  ℕ, suc, ◌+◌, ◌<◌, ◌≤◌, ◌≡◌, refl, Bool, true, false, some, List, [], ◌∷◌, ◌==◌, ==_iff,
  if◌then◌else◌, length, codes, arith,
}
use open_image_debugger.Host.ThumbnailCache.{Canvas, created, texture_for, destroy}
use open_image_debugger.Host.ThumbnailCache.Owned.{CanvasLaws}
use open_image_debugger.Host.ThumbnailCache.Released.{IsDrawable}
use open_image_debugger.Host.ThumbnailCache.Budget.{CountLaws, in_one_frame, renders-run}
use open_image_debugger.Host.ThumbnailCache.Runs.{
  Step, new_frame, draw_row, evict, run, holds-destroy, texture_for-IsDrawable,
}

abbrev is_texture : List Bool → ℕ → Bool
is_texture [] t = false
is_texture (b ∷ g) t = if suc (length g) == t then b else is_texture g t

abbrev delete : ℕ → List Bool → List Bool
delete u [] = []
delete u (b ∷ g) = (if suc (length g) == u then false else b) ∷ delete u g

abbrev canvas : Canvas (List Bool) Bool
canvas = record {
  gl_gen_texture = λ g. (suc (length g), true ∷ g);
  gl_delete_texture = delete;
  render_buffer_icon = λ stage g. (stage, g);
  gl_tex_image = λ t stage g. g;
}

is_texture-length : (g : List Bool) (t : ℕ) → (length g < t) → is_texture g t ≡ false
is_texture-length [] t h = refl
is_texture-length (b ∷ g) t h = ground (arith, is_texture-length g t)

length-delete : (u : ℕ) (g : List Bool) → length (delete u g) ≡ length g
length-delete u [] = refl
length-delete u (b ∷ g) = ground (arith, length-delete u g)

is_texture-delete :
    (g : List Bool) (u t : ℕ)
    → is_texture (delete u g) t ≡ (if u == t then false else is_texture g t)
is_texture-delete [] u t = ground arith
is_texture-delete (b ∷ g) u t =
    ground
      (arith, length-delete u g, is_texture-delete g u t, ==_iff u t, ==_iff (suc (length g)) t)

abbrev laws : CanvasLaws canvas is_texture
laws = record {
  generated_positive = λ g. ground arith;
  generated_fresh = λ g. is_texture-length g (suc (length g)) (ground arith);
  generate_lem = λ g t. refl;
  delete_lem = is_texture-delete;
  render_lem = λ g stage t. refl;
  upload_lem = λ g u stage t. refl;
}

-- Two rows in a frame, of which the second waits, and a re-plot whose icon fails; then one is removed.
abbrev frames : List (Step Bool)
frames =
    draw_row (codes "img") 1 (some true)
    ∷ draw_row (codes "mask") 1 (some true)
    ∷ new_frame
    ∷ draw_row (codes "img") 2 (some false)
    ∷ new_frame
    ∷ draw_row (codes "mask") 1 (some true)
    ∷ evict (codes "mask" ∷ [])
    ∷ []

holds-destroy_example :
    is_texture (destroy canvas (run canvas frames (created []))).graphics 1 ≡ false
holds-destroy_example = holds-destroy canvas is_texture laws [] (λ t. refl) frames 1

texture_for-IsDrawable_example :
    IsDrawable is_texture
      (texture_for canvas (codes "img") 3 (some true) (run canvas frames (created [])))
texture_for-IsDrawable_example =
    texture_for-IsDrawable canvas is_texture laws [] (λ t. refl) frames (codes "img") 3 (some true)

-- The names generated, and the icons rendered.
abbrev counted : Canvas (ℕ × ℕ) Bool
counted = record {
  gl_gen_texture = λ g. (suc g.0, (suc g.0, g.1));
  gl_delete_texture = λ u g. g;
  render_buffer_icon = λ stage g. (stage, (g.0, suc g.1));
  gl_tex_image = λ t stage g. g;
}

abbrev count_laws : CountLaws counted (λ g. g.1)
count_laws = record {
  generate_keeps = λ g. refl;
  delete_keeps = λ u g. refl;
  render_adds = λ stage g. refl;
  upload_keeps = λ u stage g. refl;
}

abbrev two_rows : List (Step Bool)
two_rows = draw_row (codes "img") 1 (some true) ∷ draw_row (codes "mask") 1 (some true) ∷ []

renders-run_example : (run counted two_rows (created (0, 0))).graphics.1 ≤ 0 + 1
unfolding in_one_frame created
renders-run_example = renders-run counted (λ g. g.1) count_laws two_rows (created (0, 0)) refl
