-- ===== src/Host/SessionBuffers.antt =====
-- src/host/settings/session_buffers.cpp: the buffers to remember for the next session.
use open_image_debugger.Prelude.{
  ◌≡◌, refl, ap, true, not, ◌&&◌, ◌||◌, Option, none, some, List, [], ◌∷◌, ◌++◌, if◌then◌else◌, ℤ,
  ◌+ℤ◌, leb_ℤ, Str, str_eq, str_eq_iff, arith,
}
use open_image_debugger.Host.IpcClient.{PreviousBuffer, contains}

unfoldable pub fresh_buffers : (expiry : ℤ) → List Str → List PreviousBuffer
fresh_buffers expiry [] = []
fresh_buffers expiry (name ∷ rest) =
    record { variable_name = name; expiry_epoch_s = expiry } ∷ fresh_buffers expiry rest

-- The loop over the buffers of the session before.
unfoldable pub kept_buffers :
    List PreviousBuffer → (loaded seen : List Str) → (now_s : ℤ) → List PreviousBuffer
kept_buffers [] loaded seen now_s = []
kept_buffers (b ∷ prior) loaded seen now_s =
    let rest = kept_buffers prior loaded seen now_s in
    if contains loaded b.variable_name
    then rest
    else if contains seen b.variable_name
    then rest
    else if leb_ℤ b.expiry_epoch_s now_s
    then rest
    else b ∷ rest

-- A set made of a list holds what the list contains.
unfoldable pub merge_previous_buffers :
    (prior : List PreviousBuffer)
    → (current_loaded seen_this_session : List Str) → (now_s ttl_s : ℤ) → List PreviousBuffer
merge_previous_buffers prior current_loaded seen_this_session now_s ttl_s =
    fresh_buffers (now_s +ℤ ttl_s) current_loaded
    ++ kept_buffers prior current_loaded seen_this_session now_s

-- The expiry that the list gives to a name: the first one.
unfoldable pub expiry_of : List PreviousBuffer → Str → Option ℤ
expiry_of [] name = none
expiry_of (b ∷ rest) name =
    let later = expiry_of rest name in
    if str_eq b.variable_name name then some b.expiry_epoch_s else later

-- The first expiry of a name that has not passed.
unfoldable pub live_expiry_of : (now_s : ℤ) → List PreviousBuffer → Str → Option ℤ
live_expiry_of now_s [] name = none
live_expiry_of now_s (b ∷ rest) name =
    let later = live_expiry_of now_s rest name in
    if str_eq b.variable_name name && not (leb_ℤ b.expiry_epoch_s now_s)
    then some b.expiry_epoch_s
    else later

expiry_of-fresh_buffers :
    (expiry : ℤ) (loaded : List Str) (tail : List PreviousBuffer) (name : Str)
    → expiry_of (fresh_buffers expiry loaded ++ tail) name
      ≡ (if contains loaded name then some expiry else expiry_of tail name)
unfolding fresh_buffers expiry_of contains
expiry_of-fresh_buffers expiry [] tail name = refl
expiry_of-fresh_buffers expiry (s ∷ rest) tail name =
    ground (arith, expiry_of-fresh_buffers expiry rest tail name)

contains_named :
    (l : List Str) (s name : Str) → str_eq s name ≡ true → contains l s ≡ contains l name
contains_named l s name h = ap (contains l) ((str_eq_iff s name).0 h)

expiry_of-kept_buffers :
    (prior : List PreviousBuffer) (loaded seen : List Str) (now_s : ℤ) (name : Str)
    → expiry_of (kept_buffers prior loaded seen now_s) name ≡ (
        if contains loaded name || contains seen name
        then none
        else live_expiry_of now_s prior name)
unfolding kept_buffers expiry_of live_expiry_of
expiry_of-kept_buffers [] loaded seen now_s name = ground arith
expiry_of-kept_buffers (b ∷ prior) loaded seen now_s name = ground (
  arith,
  expiry_of-kept_buffers prior loaded seen now_s name,
  contains_named loaded b.variable_name name,
  contains_named seen b.variable_name name,
)

-- In the merged list a loaded name has a fresh expiry, a name seen in this session but not loaded
-- has none, and any other name has its first expiry that has not passed.
pub expiry_of-merge_previous_buffers :
    (prior : List PreviousBuffer) (loaded seen : List Str) (now_s ttl_s : ℤ) (name : Str)
    → expiry_of (merge_previous_buffers prior loaded seen now_s ttl_s) name ≡ (
        if contains loaded name
        then some (now_s +ℤ ttl_s)
        else if contains seen name
        then none
        else live_expiry_of now_s prior name)
unfolding merge_previous_buffers
expiry_of-merge_previous_buffers prior loaded seen now_s ttl_s name = ground (
  arith,
  expiry_of-fresh_buffers (now_s +ℤ ttl_s) loaded (kept_buffers prior loaded seen now_s) name,
  expiry_of-kept_buffers prior loaded seen now_s name,
)
