-- ===== src/Host/ThumbnailCache/Runs.antt =====
-- Frames of src/host/ui/thumbnail_cache.cpp: a run is a list of calls.
use open_image_debugger.Prelude.{
  ℕ, ◌≡◌, refl, ◌∙◌, Bool, true, false, ◌||◌, Option, none, some, List, [], ◌∷◌, if◌then◌else◌, Str,
  find, Bool-cases, inl, inr, arith,
}
use open_image_debugger.Host.ThumbnailCache.{
  Canvas, Entry, ThumbnailCache, created, has_name, names_of, is_up_to_date, cached_tex, has_good,
  begin_frame, finish_render, render_icon, texture_for, evict_missing, destroy,
}
use open_image_debugger.Host.ThumbnailCache.Owned.{CanvasLaws, assigned-here}
use open_image_debugger.Host.ThumbnailCache.Released.{
  OwnsAll, IsDrawable, shown-IsDrawable, texture_for-OwnsAll, render_icon-OwnsAll,
  evict_names-OwnsAll, find-evict_names, has_name-names_of, texture_object-again, has_texture,
}

pub data Step (S : Type 0) : Type 0 where
  new_frame : Step S
  draw_row : Str → ℕ → Option S → Step S
  evict : List Str → Step S

module _ {G S : Type 0} (canvas : Canvas G S) where
  unfoldable pub perform : Step S → ThumbnailCache G → ThumbnailCache G
  perform new_frame c = begin_frame c
  perform (draw_row name revision stage) c = (texture_for canvas name revision stage c).1
  perform (evict live) c = evict_missing canvas live c

  unfoldable pub run : List (Step S) → ThumbnailCache G → ThumbnailCache G
  run [] c = c
  run (step ∷ steps) c = run steps (perform step c)

  evicted :
      (live : List Str) (c : ThumbnailCache G) (j : Str) (o : Option Entry)
      → (find j c.entries ≡ o)
      → find j (evict_missing canvas live c).entries ≡ (if has_name live j then o else none)
  unfolding evict_missing
  evicted live c j none h = ground (arith, find-evict_names canvas live (names_of c.entries) c j)
  evicted live c j (some e) h = ground (
    arith,
    find-evict_names canvas live (names_of c.entries) c j,
    has_name-names_of c.entries j e h,
  )

  -- Evicting removes the entries of the names that are not live, and only those.
  pub find-evict_missing :
      (live : List Str) (c : ThumbnailCache G) (j : Str)
      → find j (evict_missing canvas live c).entries
        ≡ (if has_name live j then find j c.entries else none)
  find-evict_missing live c j = evicted live c j (find j c.entries) refl

module _ {G S : Type 0} (canvas : Canvas G S) (holds : G → ℕ → Bool)
    (laws : CanvasLaws canvas holds) where
  perform-OwnsAll :
      (step : Step S) (c : ThumbnailCache G)
      → OwnsAll holds c
      → OwnsAll holds (perform canvas step c)
  unfolding perform OwnsAll begin_frame evict_missing
  perform-OwnsAll new_frame c o = o
  perform-OwnsAll (draw_row name revision stage) c o =
      texture_for-OwnsAll canvas holds laws name revision stage c o
  perform-OwnsAll (evict live) c o =
      evict_names-OwnsAll canvas holds laws live (names_of c.entries) c o

  run-OwnsAll :
      (steps : List (Step S)) (c : ThumbnailCache G)
      → OwnsAll holds c
      → OwnsAll holds (run canvas steps c)
  unfolding run
  run-OwnsAll [] c o = o
  run-OwnsAll (step ∷ steps) c o = run-OwnsAll steps _ (perform-OwnsAll step c o)

  created-OwnsAll : (g : G) → ((t : ℕ) → holds g t ≡ false) → OwnsAll holds (created g)
  unfolding OwnsAll created find
  created-OwnsAll g nothing = record {
    is_held = λ k e h. ground arith;
    is_positive = λ k e h. ground arith;
    has_owner = λ t p. ground (arith, nothing t);
    is_alone = λ k j e x h i same. ground arith;
  }

  destroy-OwnsAll :
      (c : ThumbnailCache G)
      → OwnsAll holds c
      → (t : ℕ) → holds (destroy canvas c).graphics t ≡ false
  unfolding destroy OwnsAll evict_missing has_name
  destroy-OwnsAll c o t = elim (Bool-cases (holds (destroy canvas c).graphics t)) [
    | inl p ↦
        (let (k, e, q, r) =
            (evict_names-OwnsAll canvas holds laws [] (names_of c.entries) c o).has_owner t p in
          ground (arith, find-evict_missing canvas [] c k))
    | inr p ↦ p
  ]

  -- If OpenGL generates positive names that are not in use, a cache that starts without textures
  -- holds none once it is destroyed, whatever calls were made between.
  pub holds-destroy :
      (g : G)
      → ((t : ℕ) → holds g t ≡ false)
      → (steps : List (Step S)) (t : ℕ)
      → holds (destroy canvas (run canvas steps (created g))).graphics t ≡ false
  holds-destroy g nothing steps t =
      destroy-OwnsAll _ (run-OwnsAll steps (created g) (created-OwnsAll g nothing)) t

  finish_render-IsDrawable :
      (name : Str) (revision : ℕ) (stage : S) (it : Option Entry) (tex : ℕ) (r : Bool × G)
      (c : ThumbnailCache G)
      → OwnsAll holds (finish_render canvas name revision stage it tex r c).1
      → ((e : Entry) → (it ≡ some e) → holds r.1 e.tex ≡ true)
      → IsDrawable holds (finish_render canvas name revision stage it tex r c)
  unfolding finish_render IsDrawable OwnsAll has_good cached_tex
  finish_render-IsDrawable name revision stage it tex (true, g) c o kept =
      inr (o.is_held name _ (assigned-here name _ c.entries))
  finish_render-IsDrawable name revision stage none tex (false, g) c o kept = inl refl
  finish_render-IsDrawable name revision stage (some e) tex (false, g) c o kept =
      elim (Bool-cases (has_good (some e))) [
        | inl t ↦ rw t (inr (kept e refl))
        | inr f ↦ rw f (inl refl)
      ]

  render_icon-IsDrawable :
      (name : Str) (revision : ℕ) (stage : S) (it : Option Entry) (c : ThumbnailCache G)
      → OwnsAll holds c
      → (find name c.entries ≡ it)
      → IsDrawable holds (render_icon canvas name revision stage it c)
  unfolding render_icon OwnsAll
  render_icon-IsDrawable name revision stage none c o h =
      finish_render-IsDrawable name revision stage none _ _ _
        (render_icon-OwnsAll canvas holds laws name revision stage none c o h) (λ e p. ground arith)
  render_icon-IsDrawable name revision stage (some e) c o h =
      finish_render-IsDrawable name revision stage (some e) _ _ _
        (render_icon-OwnsAll canvas holds laws name revision stage (some e) c o h)
        (λ x p.
          rw
            (texture_object-again canvas holds laws e c.graphics
              (has_texture canvas holds laws c o name e h))
            (laws.render_lem c.graphics stage x.tex ∙ o.is_held name x (h ∙ p)))

  drawn :
      (name : Str) (revision : ℕ) (stage : Option S) (c : ThumbnailCache G)
      → OwnsAll holds c
      → IsDrawable holds (texture_for canvas name revision stage c)
  unfolding texture_for
  drawn name revision none c o =
      shown-IsDrawable canvas holds laws c o name (find name c.entries) refl
  drawn name revision (some stage) c o =
      elim (Bool-cases (is_up_to_date revision (find name c.entries) || c.rendered_this_frame)) [
        | inl t ↦ rw t (shown-IsDrawable canvas holds laws c o name (find name c.entries) refl)
        | inr f ↦ rw f (render_icon-IsDrawable name revision stage (find name c.entries) c o refl)
      ]

  -- If OpenGL generates positive names that are not in use and the cache starts without textures,
  -- then after any calls the texture that is returned for a row is 0 or one that the cache still
  -- holds.
  pub texture_for-IsDrawable :
      (g : G)
      → ((t : ℕ) → holds g t ≡ false)
      → (steps : List (Step S)) (name : Str) (revision : ℕ) (stage : Option S)
      → IsDrawable holds (texture_for canvas name revision stage (run canvas steps (created g)))
  texture_for-IsDrawable g nothing steps name revision stage =
      drawn name revision stage _ (run-OwnsAll steps (created g) (created-OwnsAll g nothing))
