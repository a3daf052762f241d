-- ===== src/Host/IpcClient/HandlerSafety.antt =====
-- The handlers of src/host/ipc/ipc_client.cpp: the ranges of what they decode, and their new states.
use open_image_debugger.Prelude.{
  ◌≡◌, refl, ap, ◌∙◌, sym, inl, inr, Bool, true, false, Option, none, some, length, IsI32, Str,
  find, Bool-cases, Option-cases, all_true, subst,
}
use open_image_debugger.Ipc.RawDataDecode.{buffer_type}
use open_image_debugger.Ipc.RawDataDecode.Payload.{geometry_fits_payload-padded_payload_size}
use open_image_debugger.Ipc.BufferAssembler.{
  BeginParams, BeginResult, BufferAssembler, AssembledBuffer, InProgress, assembled, started,
  refused, out_of_memory, end, abort,
}
use open_image_debugger.Ipc.BufferAssembler.Invariant.{
  AllSound, IsSound, geometry, accepts_parts, is_size_eq, chunk-AllSound, end-AllSound,
  abort-AllSound,
}
use open_image_debugger.Ipc.Execution.{Exec, ◌>>=◌}
use open_image_debugger.Ipc.Execution.Ensures.{Ensures, Ensures-any, Ensures-return, Ensures-bind}
use open_image_debugger.Ipc.Words.{from_word32-IsI32}
use open_image_debugger.Ipc.MessageExchange.{Memory, read_int}
use open_image_debugger.Host.IpcClient.{IpcClient, Environment}
use open_image_debugger.Host.IpcClient.Handlers.{
  Chunk, read_contents, read_begin, params_of, begin_outcome, drop_transfer, chunk_outcome,
  take_chunk, end_outcome, end_transfer,
}
use open_image_debugger.Host.IpcClient.Safety.{
  IsSafe, IsChecked, IsDecoded, store_buffer-IsSafe, report-IsSafe,
}

-- A transfer that is handed out has been checked as a payload is.
assembled-IsChecked :
    (name : Str) (e : InProgress) → IsSound name e → IsChecked (params_of (assembled e))
unfolding assembled params_of
assembled-IsChecked name e v =
    let g = geometry e v in
    let p = e.params in
    let (known, bounded, limits, size) = accepts_parts p v.accepted in
    record {
      known = known;
      limits = limits;
      fits =
          geometry_fits_payload-padded_payload_size p.width p.height p.channels p.stride
            (buffer_type p.type) g.width_range g.height_range g.channels_range v.stride_range
            (length e.bytes) (is_size_eq _ _ size ∙ ap some (sym v.size));
      width_range = g.width_range;
      height_range = g.height_range;
      channels_range = g.channels_range;
      stride_range = v.stride_range;
    }

some_inj : {A : Type 0} {x y : A} → some x ≡ some y → x ≡ y
some_inj h = cc

end-IsChecked :
    (a : BufferAssembler) (name : Str) (b : AssembledBuffer)
    → AllSound a
    → (end a name).1 ≡ some b
    → IsChecked (params_of b)
unfolding end
end-IsChecked a name b v h = elim (Option-cases (find name a)) [
  | inl absent ↦ let none-some : none ≡ some b = rw (absent, end) at h in cc
  | inr (e, there) ↦ elim (Bool-cases (all_true e.rows_received)) [
    | inl full ↦
        let same : assembled e ≡ b = some_inj (rw (there, end, full) at h) in
        subst (λ x. IsChecked (params_of x)) same (assembled-IsChecked name e (v.at name e there))
    | inr partial ↦ let none-some : none ≡ some b = rw (there, end, partial) at h in cc
  ]
]

pub begin_outcome-IsSafe :
    (p : BeginParams) (r : BufferAssembler × BeginResult) (c : IpcClient)
    → AllSound r.0
    → IsSafe c
    → IsSafe (begin_outcome p r c).1
begin_outcome-IsSafe p (a, started) c s v = record { transfers = s; records = v.records }
begin_outcome-IsSafe p (a, refused) c s v =
    report-IsSafe _ _ (record { transfers = s; records = v.records })
begin_outcome-IsSafe p (a, out_of_memory) c s v = record { transfers = s; records = v.records }

drop_transfer-IsSafe :
    (k : Chunk) (r : BufferAssembler × Bool) (c : IpcClient)
    → AllSound r.0
    → IsSafe c
    → IsSafe (drop_transfer k r c)
drop_transfer-IsSafe k (a, false) c s v = record { transfers = s; records = v.records }
drop_transfer-IsSafe k (a, true) c s v =
    report-IsSafe _ _ (record { transfers = s; records = v.records })

chunk_outcome-IsSafe :
    (k : Chunk) (r : BufferAssembler × Bool) (c : IpcClient)
    → AllSound r.0
    → IsSafe c
    → IsSafe (chunk_outcome k r c)
chunk_outcome-IsSafe k (a, true) c s v = record { transfers = s; records = v.records }
chunk_outcome-IsSafe k (a, false) c s v =
    drop_transfer-IsSafe k (abort a k.name) c (abort-AllSound a k.name s) v

end_outcome-IsSafe :
    (env : Environment) (name : Str) (was : Bool) (r : BufferAssembler × Option AssembledBuffer)
    (c : IpcClient)
    → AllSound r.0
    → ((b : AssembledBuffer) → r.1 ≡ some b → IsChecked (params_of b))
    → IsSafe c
    → IsSafe (end_outcome env name was r c)
end_outcome-IsSafe env name was (a, some b) c s k v =
    store_buffer-IsSafe env (params_of b) (record c { assembler = a }) (k b refl)
      (record { transfers = s; records = v.records })
end_outcome-IsSafe env name true (a, none) c s k v =
    report-IsSafe _ _ (record { transfers = s; records = v.records })
end_outcome-IsSafe env name false (a, none) c s k v = record { transfers = s; records = v.records }

pub take_chunk-IsSafe : (k : Chunk) (c : IpcClient) → IsSafe c → IsSafe (take_chunk k c)
unfolding take_chunk
take_chunk-IsSafe k c v =
    chunk_outcome-IsSafe k _ c
      (chunk-AllSound c.assembler k.name k.row_offset k.row_count k.bytes v.transfers) v

pub end_transfer-IsSafe :
    (env : Environment) (name : Str) (c : IpcClient) → IsSafe c → IsSafe (end_transfer env name c)
unfolding end_transfer
end_transfer-IsSafe env name c v =
    end_outcome-IsSafe env name _ (end c.assembler name) c
      (end-AllSound c.assembler name v.transfers)
      (λ b h. end-IsChecked c.assembler name b v.transfers h) v

read_int-IsI32 : Ensures read_int IsI32
unfolding read_int
read_int-IsI32 =
    Ensures-bind _ _ (λ bytes. Unit) (Ensures-any _)
      λ bytes u. Ensures-return _ (from_word32-IsI32 _)

-- Past a read whose value does not matter.
past :
    {S A B : Type 0} {Q : B → Type 0} (m : Exec S A) (f : A → Exec S B)
    → ((a : A) → Ensures (f a) Q)
    → Ensures (m >>= f) Q
past m f k = Ensures-bind m f (λ a. Unit) (Ensures-any m) λ a u. k a

pub read_contents-IsDecoded : (m : Memory) → Ensures (read_contents m) IsDecoded
unfolding read_contents
read_contents-IsDecoded m = past _ _ λ name. past _ _ λ display. past _ _ λ layout.
    past _ _ λ transpose. Ensures-bind _ _ IsI32 read_int-IsI32 λ width wi.
      Ensures-bind _ _ IsI32 read_int-IsI32 λ height hi.
        Ensures-bind _ _ IsI32 read_int-IsI32 λ channels ci.
          Ensures-bind _ _ IsI32 read_int-IsI32 λ stride si. past _ _ λ type. past _ _ λ bytes.
            Ensures-return _ (record {
              width_range = wi;
              height_range = hi;
              channels_range = ci;
              stride_range = si;
            })

pub read_begin-stride : (m : Memory) → Ensures (read_begin m) (λ p. IsI32 p.stride)
unfolding read_begin
read_begin-stride m = past _ _ λ name. past _ _ λ display. past _ _ λ layout. past _ _ λ transpose.
    past _ _ λ width. past _ _ λ height. past _ _ λ channels.
      Ensures-bind _ _ IsI32 read_int-IsI32
        λ stride si. past _ _ λ type. past _ _ λ total. Ensures-return _ si
