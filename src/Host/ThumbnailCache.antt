-- ===== src/Host/ThumbnailCache.antt =====
-- src/host/ui/thumbnail_cache.{h,cpp}: the icons of the buffers, at most one of which is rendered in a
-- frame. OpenGL and the renderer are parameters; the state is theirs with that of the cache.
pub mod Owned
pub mod Released
pub mod Runs
pub mod Budget
use open_image_debugger.Prelude.{
  ℕ, Bool, true, false, not, ◌&&◌, ◌||◌, Option, none, some, List, [], ◌∷◌, ◌==◌, if◌then◌else◌,
  Str, str_eq, Dict, find, erase, assign,
}

-- What the cache calls: `gl_gen_texture` also sets the parameters of the new texture, `render_buffer_icon`
-- is false where it fails, and `gl_tex_image` uploads the icon of the stage.
pub record Canvas (G S : Type 0) : Type 0 where
  pub gl_gen_texture : G → ℕ × G
  pub gl_delete_texture : ℕ → G → G
  pub render_buffer_icon : S → G → Bool × G
  pub gl_tex_image : ℕ → S → G → G

pub record Entry : Type 0 where
  pub revision : ℕ
  pub tex : ℕ
  pub failed : Bool

pub record ThumbnailCache (G : Type 0) : Type 0 where
  pub graphics : G
  pub entries : Dict Entry
  pub rendered_this_frame : Bool

unfoldable pub created : {G : Type 0} → G → ThumbnailCache G
created g = record { graphics = g; entries = []; rendered_this_frame = false }

unfoldable pub has_name : List Str → Str → Bool
has_name [] k = false
has_name (s ∷ names) k = str_eq s k || has_name names k

unfoldable pub names_of : Dict Entry → List Str
names_of [] = []
names_of ((k, e) ∷ d) = k ∷ names_of d

-- The texture that a row draws from what is cached; 0 is none.
unfoldable pub shown : Option Entry → ℕ
shown none = 0
shown (some e) = if e.failed then 0 else e.tex

unfoldable pub is_up_to_date : ℕ → Option Entry → Bool
is_up_to_date revision none = false
is_up_to_date revision (some e) = e.revision == revision

unfoldable pub cached_tex : Option Entry → ℕ
cached_tex none = 0
cached_tex (some e) = e.tex

-- A good icon of an older revision.
unfoldable pub has_good : Option Entry → Bool
has_good none = false
has_good (some e) = not e.failed && not (e.tex == 0)

unfoldable pub begin_frame : {G : Type 0} → ThumbnailCache G → ThumbnailCache G
begin_frame c = record c { rendered_this_frame = false }

module _ {G S : Type 0} (canvas : Canvas G S) where
  -- The cached texture, or a new one.
  unfoldable pub texture_object : Option Entry → G → ℕ × G
  texture_object it g = if cached_tex it == 0 then canvas.gl_gen_texture g else (cached_tex it, g)

  unfoldable pub finish_render :
      Str
      → ℕ
      → S
      → Option Entry
      → (tex : ℕ) → (rendered : Bool × G) → ThumbnailCache G
      → ℕ × ThumbnailCache G
  finish_render name revision stage it tex (true, g) c = (
    tex,
    record c {
      graphics = canvas.gl_tex_image tex stage g;
      entries = assign name (record { revision = revision; tex = tex; failed = false }) c.entries;
    },
  )
  finish_render name revision stage it tex (false, g) c =
      if has_good it then (cached_tex it, record c { graphics = g }) else (
        0,
        record c {
          graphics = g;
          entries =
              assign name (record { revision = revision; tex = tex; failed = true }) c.entries;
        },
      )

  unfoldable pub render_icon : Str → ℕ → S → Option Entry → ThumbnailCache G → ℕ × ThumbnailCache G
  render_icon name revision stage it c =
      let (tex, g) = texture_object it c.graphics in
      finish_render name revision stage it tex (canvas.render_buffer_icon stage g)
        (record c { rendered_this_frame = true })

  unfoldable pub texture_for : Str → ℕ → Option S → ThumbnailCache G → ℕ × ThumbnailCache G
  texture_for name revision none c = (shown (find name c.entries), c)
  texture_for name revision (some stage) c =
      if is_up_to_date revision (find name c.entries) || c.rendered_this_frame
      then (shown (find name c.entries), c)
      else render_icon name revision stage (find name c.entries) c

  unfoldable pub release : ℕ → G → G
  release tex g = if tex == 0 then g else canvas.gl_delete_texture tex g

  -- The body of `std::erase_if`, at the entry of a name.
  unfoldable pub evict_entry :
      (live : List Str) → Str → Option Entry → ThumbnailCache G → ThumbnailCache G
  evict_entry live k none c = c
  evict_entry live k (some e) c =
      if has_name live k
      then c
      else record c { graphics = release e.tex c.graphics; entries = erase k c.entries }

  unfoldable pub evict_names : (live names : List Str) → ThumbnailCache G → ThumbnailCache G
  evict_names live [] c = c
  evict_names live (k ∷ names) c = evict_names live names (evict_entry live k (find k c.entries) c)

  unfoldable pub evict_missing : (live_names : List Str) → ThumbnailCache G → ThumbnailCache G
  evict_missing live_names c = evict_names live_names (names_of c.entries) c

  -- The destructor: no name is live any more.
  unfoldable pub destroy : ThumbnailCache G → ThumbnailCache G
  destroy c = evict_names [] (names_of c.entries) c
