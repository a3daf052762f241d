-- ===== src/Host/ThumbnailCache/Budget.antt =====
-- The budget of a frame in src/host/ui/thumbnail_cache.cpp.
use open_image_debugger.Prelude.{
  ℕ, suc, ◌+◌, ◌≤◌, ◌≡◌, refl, ◌∙◌, ap, Bool, true, false, ◌||◌, Option, none, some, List, [], ◌∷◌,
  if◌then◌else◌, Str, find, Bool-cases, inl, inr, arith,
}
use open_image_debugger.Host.ThumbnailCache.{
  Canvas, Entry, ThumbnailCache, names_of, is_up_to_date, texture_object, finish_render,
  render_icon, texture_for, release, evict_entry, evict_names, evict_missing,
}
use open_image_debugger.Host.ThumbnailCache.Runs.{Step, new_frame, draw_row, evict, perform, run}

-- `renders g` counts the icons that were rendered.
pub record CountLaws {G S : Type 0} (canvas : Canvas G S) (renders : G → ℕ) : Type 0 where
  pub generate_keeps : (g : G) → renders (canvas.gl_gen_texture g).1 ≡ renders g
  pub delete_keeps : (u : ℕ) (g : G) → renders (canvas.gl_delete_texture u g) ≡ renders g
  pub render_adds :
      (stage : S) (g : G) → renders (canvas.render_buffer_icon stage g).1 ≡ suc (renders g)
  pub upload_keeps :
      (u : ℕ) (stage : S) (g : G) → renders (canvas.gl_tex_image u stage g) ≡ renders g

unfoldable pub in_one_frame : {S : Type 0} → List (Step S) → Bool
in_one_frame [] = true
in_one_frame (new_frame ∷ steps) = false
in_one_frame (draw_row name revision stage ∷ steps) = in_one_frame steps
in_one_frame (evict live ∷ steps) = in_one_frame steps

module _ {G S : Type 0} (canvas : Canvas G S) (renders : G → ℕ)
    (laws : CountLaws canvas renders) where
  -- The renders so far with the one that the frame has left.
  unfoldable pub allowance : ThumbnailCache G → ℕ
  allowance c = renders c.graphics + (if c.rendered_this_frame then 0 else 1)

  finish_render-renders :
      (name : Str) (revision : ℕ) (stage : S) (it : Option Entry) (tex : ℕ) (r : Bool × G)
      (c : ThumbnailCache G)
      → (c.rendered_this_frame ≡ true)
      → allowance (finish_render canvas name revision stage it tex r c).1 ≡ renders r.1
  unfolding finish_render allowance
  finish_render-renders name revision stage it tex (true, g) c h =
      ground (arith, laws.upload_keeps tex stage g)
  finish_render-renders name revision stage it tex (false, g) c h = ground arith

  texture_object-renders :
      (it : Option Entry) (g : G) → renders (texture_object canvas it g).1 ≡ renders g
  unfolding texture_object
  texture_object-renders it g = ground (arith, laws.generate_keeps g)

  render_icon-allowance :
      (name : Str) (revision : ℕ) (stage : S) (it : Option Entry) (c : ThumbnailCache G)
      → (c.rendered_this_frame ≡ false)
      → allowance (render_icon canvas name revision stage it c).1 ≡ allowance c
  unfolding render_icon allowance
  render_icon-allowance name revision stage it c h =
      finish_render-renders name revision stage it (texture_object canvas it c.graphics).0 _ _ refl
      ∙ (laws.render_adds stage _ ∙ (ap suc (texture_object-renders it c.graphics) ∙ ground arith))

  texture_for-allowance :
      (name : Str) (revision : ℕ) (stage : Option S) (c : ThumbnailCache G)
      → allowance (texture_for canvas name revision stage c).1 ≡ allowance c
  unfolding texture_for
  texture_for-allowance name revision none c = refl
  texture_for-allowance name revision (some stage) c =
      elim (Bool-cases (is_up_to_date revision (find name c.entries) || c.rendered_this_frame)) [
        | inl t ↦ rw t refl
        | inr f ↦
            rw f (render_icon-allowance name revision stage (find name c.entries) c (ground arith))
      ]

  evict_entry-allowance :
      (live : List Str) (k : Str) (it : Option Entry) (c : ThumbnailCache G)
      → allowance (evict_entry canvas live k it c) ≡ allowance c
  unfolding evict_entry release allowance
  evict_entry-allowance live k none c = refl
  evict_entry-allowance live k (some e) c = ground (arith, laws.delete_keeps e.tex c.graphics)

  evict_names-allowance :
      (live names : List Str) (c : ThumbnailCache G)
      → allowance (evict_names canvas live names c) ≡ allowance c
  unfolding evict_names
  evict_names-allowance live [] c = refl
  evict_names-allowance live (k ∷ names) c =
      evict_names-allowance live names _ ∙ evict_entry-allowance live k (find k c.entries) c

  run-allowance :
      (steps : List (Step S)) (c : ThumbnailCache G)
      → (in_one_frame steps ≡ true)
      → allowance (run canvas steps c) ≡ allowance c
  unfolding run perform in_one_frame evict_missing
  run-allowance [] c h = refl
  run-allowance (new_frame ∷ steps) c h = ground arith
  run-allowance (draw_row name revision stage ∷ steps) c h =
      run-allowance steps _ h ∙ texture_for-allowance name revision stage c
  run-allowance (evict live ∷ steps) c h =
      run-allowance steps _ h ∙ evict_names-allowance live (names_of c.entries) c

  -- Within a frame, whatever rows are drawn and whatever is evicted, at most one icon is rendered,
  -- and none if the frame has already rendered one.
  pub renders-run :
      (steps : List (Step S)) (c : ThumbnailCache G)
      → (in_one_frame steps ≡ true)
      → renders (run canvas steps c).graphics
        ≤ renders c.graphics + (if c.rendered_this_frame then 0 else 1)
  unfolding allowance
  renders-run steps c h = ground (arith, run-allowance steps c h)
