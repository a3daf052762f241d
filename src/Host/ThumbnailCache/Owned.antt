-- ===== src/Host/ThumbnailCache/Owned.antt =====
-- The textures that src/host/ui/thumbnail_cache.cpp holds.
use open_image_debugger.Prelude.{
  ℕ, ◌<◌, ◌≡◌, ◌∙◌, ap, sym, subst, Bool, true, false, none, some, ◌==◌, ==_iff, if◌then◌else◌, Str,
  str_eq, str_eq_iff, str_eq_refl, Dict, find, erase, assign, find-erase, find-assign, Bool-cases,
  ◌⊎◌, inl, inr, arith,
}
use open_image_debugger.Host.ThumbnailCache.{Canvas, Entry}

-- `holds g t` says that t was generated for the cache and is not deleted. 0 is never generated, and a
-- texture that is held is not generated again.
pub record CanvasLaws {G S : Type 0} (canvas : Canvas G S) (holds : G → ℕ → Bool) : Type 0 where
  pub generated_positive : (g : G) → 0 < (canvas.gl_gen_texture g).0
  pub generated_fresh : (g : G) → holds g (canvas.gl_gen_texture g).0 ≡ false
  pub generate_lem :
      (g : G) (t : ℕ)
      → holds (canvas.gl_gen_texture g).1 t
        ≡ (if (canvas.gl_gen_texture g).0 == t then true else holds g t)
  pub delete_lem :
      (g : G) (u t : ℕ)
      → holds (canvas.gl_delete_texture u g) t ≡ (if u == t then false else holds g t)
  pub render_lem :
      (g : G) (stage : S) (t : ℕ) → holds (canvas.render_buffer_icon stage g).1 t ≡ holds g t
  pub upload_lem :
      (g : G) (u : ℕ) (stage : S) (t : ℕ) → holds (canvas.gl_tex_image u stage g) t ≡ holds g t

-- Every entry has a texture of its own, and every texture that is held is that of an entry.
pub record IsOwned (held : ℕ → Bool) (d : Dict Entry) : Type 0 where
  pub is_held : (k : Str) (e : Entry) → (find k d ≡ some e) → held e.tex ≡ true
  pub is_positive : (k : Str) (e : Entry) → (find k d ≡ some e) → 0 < e.tex
  pub has_owner :
      (t : ℕ) → (held t ≡ true) → (k : Str) × (e : Entry) × (find k d ≡ some e) × (e.tex ≡ t)
  pub is_alone :
      (k j : Str) (e x : Entry)
      → (find k d ≡ some e)
      → (find j d ≡ some x)
      → (e.tex ≡ x.tex)
      → k ≡ j

assigned-cases :
    (k j : Str) (e x : Entry) (d : Dict Entry)
    → (find j (assign k e d) ≡ some x)
    → ((k ≡ j) × (e ≡ x)) ⊎ ((str_eq k j ≡ false) × (find j d ≡ some x))
assigned-cases k j e x d h = elim (Bool-cases (str_eq k j)) [
  | inl t ↦ inl ((str_eq_iff k j).0 t, ground (arith, find-assign k j e d))
  | inr f ↦ inr (f, ground (arith, find-assign k j e d))
]

erased-cases :
    (k j : Str) (x : Entry) (d : Dict Entry)
    → (find j (erase k d) ≡ some x)
    → (str_eq k j ≡ false) × (find j d ≡ some x)
erased-cases k j x d h = elim (Bool-cases (str_eq k j)) [
  | inl t ↦ ground (arith, find-erase k j d)
  | inr f ↦ (f, ground (arith, find-erase k j d))
]

pub assigned-here : (k : Str) (e : Entry) (d : Dict Entry) → find k (assign k e d) ≡ some e
assigned-here k e d = ground (arith, find-assign k k e d, str_eq_refl k)

assigned-there :
    (k j : Str) (e : Entry) (d : Dict Entry)
    → (str_eq k j ≡ false)
    → find j (assign k e d) ≡ find j d
assigned-there k j e d f = ground (arith, find-assign k j e d)

erased-there : (k j : Str) (d : Dict Entry) → (str_eq k j ≡ false) → find j (erase k d) ≡ find j d
erased-there k j d f = ground (arith, find-erase k j d)

-- One name has one entry.
same-tex :
    (k j : Str) (e x : Entry) (d : Dict Entry)
    → (find k d ≡ some e)
    → (find j d ≡ some x)
    → (k ≡ j)
    → e.tex ≡ x.tex
same-tex k j e x d p q n = ground (arith, ap (λ t. find t d) n)

missing-apart :
    (k j : Str) (e : Entry) (d : Dict Entry)
    → (find k d ≡ none)
    → (find j d ≡ some e)
    → str_eq k j ≡ false
missing-apart k j e d p q = elim (Bool-cases (str_eq k j)) [
  | inl t ↦ ground (arith, ap (λ i. find i d) ((str_eq_iff k j).0 t))
  | inr f ↦ f
]

module _ (held : ℕ → Bool) (d : Dict Entry) (o : IsOwned held d) where
  -- A new revision in the texture that the entry had.
  pub replace-IsOwned :
      (k : Str) (e x : Entry) → (find k d ≡ some e) → (e.tex ≡ x.tex) → IsOwned held (assign k x d)
  replace-IsOwned k e x h same = record {
    is_held = λ j y p. elim (assigned-cases k j x y d p) [
      | inl (n, q) ↦ ap held (sym (same ∙ ap (λ z. z.tex) q)) ∙ o.is_held k e h
      | inr (f, q) ↦ o.is_held j y q
    ];
    is_positive = λ j y p. elim (assigned-cases k j x y d p) [
      | inl (n, q) ↦ subst (λ t. 0 < t) (same ∙ ap (λ z. z.tex) q) (o.is_positive k e h)
      | inr (f, q) ↦ o.is_positive j y q
    ];
    has_owner = λ t p.
        let (i, y, q, r) = o.has_owner t p in
        elim (Bool-cases (str_eq k i)) [
          | inl b ↦ (
            k,
            x,
            assigned-here k x d,
            sym same ∙ (same-tex k i e y d h q ((str_eq_iff k i).0 b) ∙ r),
          )
          | inr b ↦ (i, y, assigned-there k i x d b ∙ q, r)
        ];
    is_alone = λ i j y z p q r. elim (assigned-cases k i x y d p) [
      | inl (n, u) ↦ elim (assigned-cases k j x z d q) [
        | inl (m, v) ↦ sym n ∙ m
        | inr (f, v) ↦ sym n ∙ o.is_alone k j e z h v (same ∙ (ap (λ w. w.tex) u ∙ r))
      ]
      | inr (f, u) ↦ elim (assigned-cases k j x z d q) [
        | inl (m, v) ↦ o.is_alone i k y e u h (r ∙ sym (same ∙ ap (λ w. w.tex) v)) ∙ m
        | inr (g, v) ↦ o.is_alone i j y z u v r
      ]
    ];
  }

  -- A new texture for a name without an entry.
  pub add-IsOwned :
      (k : Str) (x : Entry) (later : ℕ → Bool)
      → (find k d ≡ none)
      → (0 < x.tex)
      → (held x.tex ≡ false)
      → ((t : ℕ) → later t ≡ (if x.tex == t then true else held t))
      → IsOwned later (assign k x d)
  add-IsOwned k x later absent positive fresh grown = record {
    is_held = λ j y p. elim (assigned-cases k j x y d p) [
      | inl (n, q) ↦ ground (arith, grown y.tex, ap (λ z. z.tex) q)
      | inr (f, q) ↦ ground (arith, grown y.tex, o.is_held j y q)
    ];
    is_positive = λ j y p. elim (assigned-cases k j x y d p) [
      | inl (n, q) ↦ subst (λ t. 0 < t) (ap (λ z. z.tex) q) positive
      | inr (f, q) ↦ o.is_positive j y q
    ];
    has_owner = λ t p. elim (Bool-cases (x.tex == t)) [
      | inl b ↦ (k, x, assigned-here k x d, ground (arith, ==_iff x.tex t))
      | inr b ↦
          (let (i, y, q, r) = o.has_owner t (ground (arith, grown t)) in
            (i, y, assigned-there k i x d (missing-apart k i y d absent q) ∙ q, r))
    ];
    is_alone = λ i j y z p q r. elim (assigned-cases k i x y d p) [
      | inl (n, u) ↦ elim (assigned-cases k j x z d q) [
        | inl (m, v) ↦ sym n ∙ m
        | inr (f, v) ↦ ground (arith, fresh_from j z v, ap (λ w. w.tex) u)
      ]
      | inr (f, u) ↦ elim (assigned-cases k j x z d q) [
        | inl (m, v) ↦ ground (arith, fresh_from i y u, ap (λ w. w.tex) v)
        | inr (g, v) ↦ o.is_alone i j y z u v r
      ]
    ];
  }
    where
      fresh_from : (i : Str) (y : Entry) → (find i d ≡ some y) → ¬ (x.tex ≡ y.tex)
      fresh_from i y q same = ground (arith, ap held same, o.is_held i y q)

  -- An entry goes with its texture.
  pub drop-IsOwned :
      (k : Str) (x : Entry) (later : ℕ → Bool)
      → (find k d ≡ some x)
      → ((t : ℕ) → later t ≡ (if x.tex == t then false else held t))
      → IsOwned later (erase k d)
  drop-IsOwned k x later present gone = record {
    is_held = λ j y p.
        let (f, q) = erased-cases k j y d p in
        ground (
          arith,
          gone y.tex,
          o.is_held j y q,
          ==_iff x.tex y.tex,
          o.is_alone k j x y present q,
          str_eq_iff k j,
        );
    is_positive = λ j y p. o.is_positive j y (erased-cases k j y d p).1;
    has_owner = λ t p.
        let (i, y, q, r) = o.has_owner t (ground (arith, gone t)) in
        (i, y, erased-there k i d (away t p i y q r) ∙ q, r);
    is_alone =
        λ i j y z p q r. o.is_alone i j y z (erased-cases k i y d p).1 (erased-cases k j z d q).1 r;
  }
    where
      away :
          (t : ℕ)
          → (later t ≡ true)
          → (i : Str) (y : Entry) → (find i d ≡ some y)
          → (y.tex ≡ t)
          → str_eq k i ≡ false
      away t p i y q r = elim (Bool-cases (str_eq k i)) [
        | inl b ↦
            ground
              (arith, gone t, ==_iff x.tex t, same-tex k i x y d present q ((str_eq_iff k i).0 b))
        | inr b ↦ b
      ]

  -- Only what is held of each texture matters.
  pub keep-IsOwned : (later : ℕ → Bool) → ((t : ℕ) → later t ≡ held t) → IsOwned later d
  keep-IsOwned later same = record {
    is_held = λ k e h. same e.tex ∙ o.is_held k e h;
    is_positive = o.is_positive;
    has_owner = λ t p. o.has_owner t (sym (same t) ∙ p);
    is_alone = o.is_alone;
  }
