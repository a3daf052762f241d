-- ===== src/Host/ThumbnailCache/Released.antt =====
-- The textures of src/host/ui/thumbnail_cache.cpp over a run of its operations.
use open_image_debugger.Prelude.{
  ℕ, ◌<◌, ◌≡◌, refl, ◌∙◌, ap, Bool, true, false, not, ◌&&◌, ◌||◌, Option, none, some, List, [], ◌∷◌,
  ◌==◌, if◌then◌else◌, Str, str_eq, str_eq_iff, Dict, find, find-erase, Bool-cases, ◌⊎◌, inl, inr,
  arith,
}
use open_image_debugger.Host.ThumbnailCache.{
  Canvas, Entry, ThumbnailCache, has_name, names_of, shown, is_up_to_date, cached_tex, has_good,
  texture_object, finish_render, render_icon, texture_for, release, evict_entry, evict_names,
}
use open_image_debugger.Host.ThumbnailCache.Owned.{
  CanvasLaws, IsOwned, replace-IsOwned, add-IsOwned, drop-IsOwned, keep-IsOwned,
}

module _ {G : Type 0} (holds : G → ℕ → Bool) where
  unfoldable pub OwnsAll : ThumbnailCache G → Type 0
  OwnsAll c = IsOwned (holds c.graphics) c.entries

  -- The texture 0 is none; any other that is drawn exists.
  unfoldable pub IsDrawable : ℕ × ThumbnailCache G → Type 0
  IsDrawable (tex, c) = (tex ≡ 0) ⊎ (holds c.graphics tex ≡ true)

module _ {G S : Type 0} (canvas : Canvas G S) (holds : G → ℕ → Bool)
    (laws : CanvasLaws canvas holds) where
  pub shown-IsDrawable :
      (c : ThumbnailCache G)
      → OwnsAll holds c
      → (k : Str) (it : Option Entry) → (find k c.entries ≡ it)
      → IsDrawable holds (shown it, c)
  unfolding OwnsAll IsDrawable shown
  shown-IsDrawable c o k none h = inl refl
  shown-IsDrawable c o k (some e) h = elim (Bool-cases e.failed) [
    | inl t ↦ inl (rw (t, shown) refl)
    | inr f ↦ inr (rw (f, shown) (o.is_held k e h))
  ]

  -- A new texture, whether or not the icon renders.
  finish_new :
      (name : Str) (revision : ℕ) (stage : S) (tex : ℕ) (r : Bool × G) (c : ThumbnailCache G)
      → OwnsAll holds c
      → (find name c.entries ≡ none)
      → (0 < tex)
      → (holds c.graphics tex ≡ false)
      → ((t : ℕ) → holds r.1 t ≡ (if tex == t then true else holds c.graphics t))
      → OwnsAll holds (finish_render canvas name revision stage none tex r c).1
  unfolding OwnsAll finish_render has_good
  finish_new name revision stage tex (true, g) c o absent positive fresh grown =
      add-IsOwned (holds c.graphics) c.entries o name _ _ absent positive fresh
        (λ t. laws.upload_lem g tex stage t ∙ grown t)
  finish_new name revision stage tex (false, g) c o absent positive fresh grown =
      add-IsOwned (holds c.graphics) c.entries o name _ _ absent positive fresh grown

  -- The texture that the entry has.
  finish_again :
      (name : Str) (revision : ℕ) (stage : S) (e : Entry) (r : Bool × G) (c : ThumbnailCache G)
      → OwnsAll holds c
      → (find name c.entries ≡ some e)
      → ((t : ℕ) → holds r.1 t ≡ holds c.graphics t)
      → OwnsAll holds (finish_render canvas name revision stage (some e) e.tex r c).1
  unfolding OwnsAll finish_render
  finish_again name revision stage e (true, g) c o h same =
      keep-IsOwned (holds c.graphics) _
        (replace-IsOwned (holds c.graphics) c.entries o name e _ h refl) _
        (λ t. laws.upload_lem g e.tex stage t ∙ same t)
  finish_again name revision stage e (false, g) c o h same = elim (Bool-cases (has_good (some e))) [
    | inl t ↦ rw t (keep-IsOwned (holds c.graphics) c.entries o _ same)
    | inr f ↦ rw f (
        keep-IsOwned (holds c.graphics) _
          (replace-IsOwned (holds c.graphics) c.entries o name e _ h refl) _ same)
  ]

  pub has_texture :
      (c : ThumbnailCache G)
      → OwnsAll holds c
      → (k : Str) (e : Entry) → (find k c.entries ≡ some e)
      → (e.tex == 0) ≡ false
  unfolding OwnsAll
  has_texture c o k e h = ground (arith, o.is_positive k e h)

  pub texture_object-again :
      (e : Entry) (g : G) → ((e.tex == 0) ≡ false) → texture_object canvas (some e) g ≡ (e.tex, g)
  unfolding texture_object cached_tex
  texture_object-again e g f = rw (f, texture_object) refl

  pub render_icon-OwnsAll :
      (name : Str) (revision : ℕ) (stage : S) (it : Option Entry) (c : ThumbnailCache G)
      → OwnsAll holds c
      → (find name c.entries ≡ it)
      → OwnsAll holds (render_icon canvas name revision stage it c).1
  unfolding render_icon texture_object cached_tex OwnsAll
  render_icon-OwnsAll name revision stage none c o h =
      let g = c.graphics in
      finish_new name revision stage (canvas.gl_gen_texture g).0 _
        (record c { rendered_this_frame = true }) o h (laws.generated_positive g)
        (laws.generated_fresh g)
        (λ t. laws.render_lem (canvas.gl_gen_texture g).1 stage t ∙ laws.generate_lem g t)
  render_icon-OwnsAll name revision stage (some e) c o h =
      rw (texture_object-again e c.graphics (has_texture c o name e h)) (
        finish_again name revision stage e _ (record c { rendered_this_frame = true }) o h
          (laws.render_lem c.graphics stage))

  pub texture_for-OwnsAll :
      (name : Str) (revision : ℕ) (stage : Option S) (c : ThumbnailCache G)
      → OwnsAll holds c
      → OwnsAll holds (texture_for canvas name revision stage c).1
  unfolding texture_for
  texture_for-OwnsAll name revision none c o = o
  texture_for-OwnsAll name revision (some stage) c o =
      elim (Bool-cases (is_up_to_date revision (find name c.entries) || c.rendered_this_frame)) [
        | inl t ↦ rw t o
        | inr f ↦ rw f (render_icon-OwnsAll name revision stage (find name c.entries) c o refl)
      ]

  evict_entry-OwnsAll :
      (live : List Str) (k : Str) (it : Option Entry) (c : ThumbnailCache G)
      → OwnsAll holds c
      → (find k c.entries ≡ it)
      → OwnsAll holds (evict_entry canvas live k it c)
  unfolding OwnsAll evict_entry release
  evict_entry-OwnsAll live k none c o h = o
  evict_entry-OwnsAll live k (some e) c o h = elim (Bool-cases (has_name live k)) [
    | inl t ↦ rw t o
    | inr f ↦
        rw (f, has_texture c o k e h)
          (drop-IsOwned (holds c.graphics) c.entries o k e _ h (laws.delete_lem c.graphics e.tex))
  ]

  pub evict_names-OwnsAll :
      (live names : List Str) (c : ThumbnailCache G)
      → OwnsAll holds c
      → OwnsAll holds (evict_names canvas live names c)
  unfolding evict_names
  evict_names-OwnsAll live [] c o = o
  evict_names-OwnsAll live (k ∷ names) c o =
      evict_names-OwnsAll live names _ (evict_entry-OwnsAll live k (find k c.entries) c o refl)

module _ {G S : Type 0} (canvas : Canvas G S) where
  find-evict_entry :
      (live : List Str) (k : Str) (it : Option Entry) (c : ThumbnailCache G)
      → (find k c.entries ≡ it)
      → (j : Str)
      → find j (evict_entry canvas live k it c).entries
        ≡ (if str_eq k j && not (has_name live k) then none else find j c.entries)
  unfolding evict_entry
  find-evict_entry live k none c h j =
      ground (arith, str_eq_iff k j, h, ap (λ i. find i c.entries) {x = k} {y = j})
  find-evict_entry live k (some e) c h j = ground (arith, find-erase k j c.entries)

  pub find-evict_names :
      (live names : List Str) (c : ThumbnailCache G) (j : Str)
      → find j (evict_names canvas live names c).entries
        ≡ (if has_name names j && not (has_name live j) then none else find j c.entries)
  unfolding evict_names has_name
  find-evict_names live [] c j = refl
  find-evict_names live (k ∷ names) c j = ground (
    arith,
    find-evict_names live names (evict_entry canvas live k (find k c.entries) c) j,
    find-evict_entry live k (find k c.entries) c refl j,
    str_eq_iff k j,
    ap (has_name live) {x = k} {y = j},
  )

pub has_name-names_of :
    (d : Dict Entry) (k : Str) (e : Entry) → (find k d ≡ some e) → has_name (names_of d) k ≡ true
unfolding has_name names_of find
has_name-names_of [] k e h = ground arith
has_name-names_of ((j, x) ∷ d) k e h = ground (arith, has_name-names_of d k e)
