-- ===== src/Examples/Restoring.antt =====
-- The theorem on restoring buffers at one that is due.
use open_image_debugger.Prelude.{
  ◌≡◌, refl, not, ◌&&◌, ◌||◌, true, List, [], ◌∷◌, ◌++◌, map, pos, Str, codes,
}
use open_image_debugger.Host.IpcClient.{IpcClient, contains, restore_all}
use open_image_debugger.Host.IpcClient.Restore.{
  AllDifferent, is_due_name, request_frame, restore_all-sent,
}
use open_image_debugger.Examples.{client}

abbrev offered : IpcClient
offered = record client { available_symbols = codes "img" ∷ []; connected = true }

restore_all-sent_example :
    (names : List Str) × ((restore_all (pos 100) offered.restore_buffers offered).sent
      ≡ offered.sent ++ map request_frame names)
    × AllDifferent names
    × ((name : Str)
        → contains names name ≡ (
            is_due_name (pos 100) offered offered.restore_buffers name
            && not (contains offered.restore_requested name)))
    × ((name : Str)
        → contains (restore_all (pos 100) offered.restore_buffers offered).restore_requested name
          ≡ (contains offered.restore_requested name
              || is_due_name (pos 100) offered offered.restore_buffers name))
restore_all-sent_example = restore_all-sent (pos 100) offered.restore_buffers offered refl
