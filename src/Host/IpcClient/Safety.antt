-- ===== src/Host/IpcClient/Safety.antt =====
-- The safe states of src/host/ipc/ipc_client.cpp, and how it stores a buffer.
use open_image_debugger.Prelude.{
  ◌≡◌, refl, ◌⊎◌, inl, inr, true, Option, none, some, length, ℤ, pos, IsI32, eqb_ℤ_iff, Str,
  Bool-cases, Option-cases, arith,
}
use open_image_debugger.Ipc.RawDataDecode.{
  is_known_buffer_type, within_display_limits, geometry_fits_payload,
}
use open_image_debugger.Ipc.BufferAssembler.Invariant.{AllSound}
use open_image_debugger.Host.BufferModel.{
  BufferRecord, BufferRecordParams, is_valid_pixel_layout, default_pixel_layout, make_buffer_record,
}
use open_image_debugger.Host.IpcBufferModel.{IpcBufferModel, index_of, upsert}
use open_image_debugger.Host.IpcClient.{IpcClient, Environment, report}
use open_image_debugger.Host.IpcClient.Diagnostics.{Diagnostic}
use open_image_debugger.Host.IpcClient.Handlers.{
  existing_record, fallback_layout, resolve_pixel_layout, store_buffer, plot_contents,
}
use open_image_debugger.Host.IpcClient.Drawable.{
  IsDrawable, AllDrawable, AllDrawable-set, AllDrawable-append,
  buffer_span_fits-geometry_fits_payload,
}

pub record IsSafe (c : IpcClient) : Type 0 where
  pub transfers : AllSound c.assembler
  pub records : AllDrawable c.model.storage

upsert-AllDrawable :
    (m : IpcBufferModel) (r : BufferRecord)
    → IsDrawable r
    → AllDrawable m.storage
    → AllDrawable (upsert m r).storage
unfolding upsert
upsert-AllDrawable m r d all = elim (Option-cases (index_of r.variable_name m.storage)) [
  | inl absent ↦ rw (absent, upsert) (AllDrawable-append m.storage r d all)
  | inr (i, there) ↦ rw (there, upsert) (AllDrawable-set m.storage i r d all)
]

-- Every layout that is fallen back on is valid.
fallback_layout-valid :
    (name : Str) (channels : ℤ) (o : Option BufferRecord)
    → is_valid_pixel_layout (fallback_layout name channels o).0 ≡ true
unfolding fallback_layout
fallback_layout-valid name channels none = unfold is_valid_pixel_layout in refl
fallback_layout-valid name channels (some r) =
    let default : is_valid_pixel_layout default_pixel_layout ≡ true =
      unfold is_valid_pixel_layout in refl in
    ground arith

-- Whatever layout is declared, the resolved one is valid unless the buffer has one channel, and
-- resolving changes neither the model nor the transfers.
pub resolve_pixel_layout_lem :
    (c : IpcClient) (name declared : Str) (channels : ℤ)
    → ((channels ≡ pos 1)
        ⊎ (is_valid_pixel_layout (resolve_pixel_layout c name declared channels).0 ≡ true))
      × ((resolve_pixel_layout c name declared channels).1.model ≡ c.model)
      × ((resolve_pixel_layout c name declared channels).1.assembler ≡ c.assembler)
unfolding resolve_pixel_layout report
resolve_pixel_layout_lem c name declared channels = ground (
  arith,
  eqb_ℤ_iff channels (pos 1),
  fallback_layout-valid name channels (existing_record c.model.storage name),
)

-- Decoded fields that have passed the checks of the wire.
pub record IsChecked (p : BufferRecordParams) : Type 0 where
  pub known : is_known_buffer_type p.type ≡ true
  pub limits : within_display_limits p.width p.height p.channels ≡ true
  pub fits :
      geometry_fits_payload p.width p.height p.channels p.stride p.type (length p.bytes) ≡ true
  pub width_range : IsI32 p.width
  pub height_range : IsI32 p.height
  pub channels_range : IsI32 p.channels
  pub stride_range : IsI32 p.stride

-- A record that is built from checked fields can be drawn.
pub store_buffer-IsSafe :
    (env : Environment) (p : BufferRecordParams) (c : IpcClient)
    → IsChecked p
    → IsSafe c
    → IsSafe (store_buffer env p c)
unfolding store_buffer make_buffer_record
store_buffer-IsSafe env p c k v =
    let (layout, same, table) =
      resolve_pixel_layout_lem c p.variable_name p.pixel_layout p.channels in
    record {
      transfers = rw table v.transfers;
      records =
          upsert-AllDrawable _ _
            (record {
              known = k.known;
              limits = k.limits;
              fits =
                  buffer_span_fits-geometry_fits_payload env.narrowing p.width p.height p.channels
                    p.stride p.type p.bytes k.width_range k.height_range k.channels_range
                    k.stride_range k.fits;
              layout = layout;
            })
            (rw same v.records);
    }

-- A report leaves the buffers alone.
pub report-IsSafe : (d : Diagnostic) (c : IpcClient) → IsSafe c → IsSafe (report d c)
unfolding report
report-IsSafe d c v = record { transfers = v.transfers; records = v.records }

pub record IsDecoded (p : BufferRecordParams) : Type 0 where
  pub width_range : IsI32 p.width
  pub height_range : IsI32 p.height
  pub channels_range : IsI32 p.channels
  pub stride_range : IsI32 p.stride

pub plot_contents-IsSafe :
    (env : Environment) (p : BufferRecordParams) (c : IpcClient)
    → IsDecoded p
    → IsSafe c
    → IsSafe (plot_contents env p c)
unfolding plot_contents
plot_contents-IsSafe env p c d v = elim (Bool-cases (is_known_buffer_type p.type)) [
  | inr other ↦ rw other (report-IsSafe _ c v)
  | inl known ↦ elim (Bool-cases (within_display_limits p.width p.height p.channels)) [
    | inr large ↦ rw (known, large) (report-IsSafe _ c v)
    | inl limits ↦
        elim (Bool-cases
          (geometry_fits_payload p.width p.height p.channels p.stride p.type (length p.bytes))) [
            | inr short ↦ rw (known, limits, short) (report-IsSafe _ c v)
            | inl fits ↦
                rw (known, limits, fits)
                  (store_buffer-IsSafe env p c
                    (record {
                      known = known;
                      limits = limits;
                      fits = fits;
                      width_range = d.width_range;
                      height_range = d.height_range;
                      channels_range = d.channels_range;
                      stride_range = d.stride_range;
                    })
                    v)
          ]
  ]
]
