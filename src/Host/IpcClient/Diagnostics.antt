-- ===== src/Host/IpcClient/Diagnostics.antt =====
-- The lines that src/host/ipc/ipc_client.cpp writes to `std::cerr`, without their wording, and the
-- choice of the reason in those that reject a message.
use open_image_debugger.Prelude.{
  ℕ, Bool, not, ◌&&◌, none, some, if◌then◌else◌, ℤ, pos, leb_ℤ, ltb_ℤ, Str,
}
use open_image_debugger.Ipc.RawDataDecode.{
  buffer_type, is_known_buffer_type, exceeds_max_buffer_bytes, within_display_limits,
  padded_payload_size,
}
use open_image_debugger.Ipc.BufferAssembler.{BeginParams}

pub data Reason : Type 0 where
  unknown_type too_many_bytes not_displayable payload_too_small : Reason
  needs : ℕ → Reason
  not_sizable not_renderable : Reason

pub data Diagnostic : Type 0 where
  contents_rejected begin_rejected : Str → Reason → Diagnostic
  chunk_rejected : Str → ℕ → ℕ → ℕ → Diagnostic
  end_rejected : Str → Diagnostic
  kept_layout defaulted_layout : Str → Diagnostic
  no_memory : Diagnostic

-- `width > 0 && height > 0 && channels > 0 && stride >= width`.
unfoldable pub is_renderable : (width height channels stride : ℤ) → Bool
is_renderable width height channels stride =
    ltb_ℤ (pos 0) width && ltb_ℤ (pos 0) height && ltb_ℤ (pos 0) channels && leb_ℤ width stride

-- The reason that a refused PLOT_BUFFER_BEGIN is reported with.
unfoldable pub begin_reason : BeginParams → Reason
begin_reason p =
    if not (is_known_buffer_type (buffer_type p.type))
    then unknown_type
    else if exceeds_max_buffer_bytes p.total_byte_size
    then too_many_bytes
    else if not (within_display_limits p.width p.height p.channels)
    then not_displayable
    else (elim (padded_payload_size p.width p.height p.channels p.stride (buffer_type p.type)) [
      | some expected ↦ needs expected
      | none ↦
          if is_renderable p.width p.height p.channels p.stride then not_sizable else not_renderable
    ])
