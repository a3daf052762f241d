-- ===== src/Host/Agent/AgentCore.antt =====
-- src/host/agent/agent_core.{h,cpp}: the requests of an agent. The JSON library, the doubles and the
-- implementation of the view model are parameters. A reply that the code builds is a value; reading
-- an empty `std::optional` is the outcome `undefined`.
pub mod Tokens
pub mod Outcomes
pub mod SetView
pub mod Admissible
pub mod Handlers
pub mod Safety
pub mod Authentication
pub mod Caps
use Prim.Native.Nat.{max, bit_or, bit_xor}
use open_image_debugger.Prelude.{
  decimal, ℕ, zero, suc, ◌+◌, ◌-◌, ◌*◌, ◌/◌, ◌%◌, ◌^◌, ◌≡◌, Bool, true, false, not, ◌&&◌, ◌||◌,
  Option, none, some, List, [], ◌∷◌, ◌++◌, ltb, leb, ◌==◌, if◌then◌else◌, ℤ, pos, negsuc, leb_ℤ,
  ltb_ℤ, to_u64, pos_part, length, Str, Dict, find, codes, str_eq, mul64,
}
use open_image_debugger.Ipc.RawDataDecode.{buffer_type, type_size}
use open_image_debugger.Host.Agent.Values.{Doubles, JsonLibrary, strtoll}
use open_image_debugger.Host.Agent.ViewModel.{BufferInfo, ViewState, ViewModel, zoom_factor}

abbrev pub default_max_bytes : ℕ
default_max_bytes = 256 * 1024 * 1024

unfoldable byte_or_zero : Str → ℕ
byte_or_zero [] = 0
byte_or_zero (c ∷ s) = c

unfoldable tail : Str → Str
tail [] = []
tail (c ∷ s) = s

-- The rounds of the loop, with the bytes that are left of both strings.
unfoldable accumulate : (rounds : ℕ) → Str → Str → (diff : ℕ) → ℕ
unfolding byte_or_zero tail
accumulate zero a b diff = diff
accumulate (suc rounds) a b diff =
    accumulate rounds (tail a) (tail b) (bit_or diff (bit_xor (byte_or_zero a) (byte_or_zero b)))

unfoldable pub constant_time_equal : Str → Str → Bool
unfolding accumulate
constant_time_equal a b =
    accumulate (max (length a) (length b)) a b (if length a == length b then 0 else 1) == 0

-- What a step of the validation gives: undefined behaviour, an error to reply, or a value.
pub data Checked (R A : Type 0) : Type 0 where
  undefined : Checked R A
  rejected : R → Checked R A
  valid : A → Checked R A

infixl 5 ◌>>=◌
unfoldable pub ◌>>=◌ : {R A B : Type 0} → Checked R A → (A → Checked R B) → Checked R B
undefined >>= f = undefined
rejected r >>= f = rejected r
valid a >>= f = f a

-- `*o` in what follows.
unfoldable pub dereference : {R A B : Type 0} → Option A → (A → Checked R B) → Checked R B
dereference none f = undefined
dereference (some a) f = f a

pub record ChannelSelection : Type 0 where
  pub all : Bool
  pub index : ℤ

pub record ViewUpdate (D : Type 0) : Type 0 where
  pub buffer_name : Option Str
  pub target : Option Str
  pub channel : Option ChannelSelection
  pub zoom : Option D
  pub center : Option (D × D)
  pub rotation_deg : Option D
  pub auto_contrast : Option Bool

pub record Reply (V : Type 0) : Type 0 where
  pub body : V
  pub payload : List ℕ

unfoldable pub min_int : ℤ → ℤ → ℤ
min_int a b = if leb_ℤ a b then a else b

unfoldable pub predecessor : ℤ → ℤ
predecessor (pos zero) = negsuc 0
predecessor (pos (suc n)) = pos n
predecessor (negsuc n) = negsuc (suc n)

-- The highest channel that can be selected, or -1.
unfoldable pub max_channel : Option BufferInfo → ℤ
unfolding min_int predecessor
max_channel none = negsuc 0
max_channel (some info) = predecessor (min_int info.channels (pos 3))

unfoldable pub full_value : Option (ℤ × Str) → Option ℤ
full_value none = none
full_value (some (value, [])) = some value
full_value (some (value, c ∷ rest)) = none

unfoldable pub channel_of_string : Option Str → Option ℤ
unfolding full_value
channel_of_string none = none
channel_of_string (some []) = none
channel_of_string (some (c ∷ s)) = full_value (strtoll (c ∷ s))

unfoldable pub is_some : {A : Type 0} → Option A → Bool
is_some none = false
is_some (some a) = true

unfoldable pub or_else : {A : Type 0} → Option A → Option A → Option A
or_else none b = b
or_else (some a) b = some a

-- The fold of the declared size: each factor is checked before it is applied.
unfoldable pub fold_declared : (max_bytes declared_bytes : ℕ) → List ℕ → Bool
fold_declared max_bytes declared_bytes [] = true
fold_declared max_bytes declared_bytes (factor ∷ rest) =
    let folded = fold_declared max_bytes (mul64 declared_bytes factor) rest in
    if ltb (max_bytes / factor) declared_bytes then false else folded

unfoldable pub declared_factors : BufferInfo → List ℕ
declared_factors info =
    to_u64 info.step
    ∷ to_u64 info.channels
    ∷ type_size (buffer_type info.type)
    ∷ to_u64 info.height
    ∷ []

unfoldable pub invalid_dimensions : BufferInfo → Bool
invalid_dimensions info =
    leb_ℤ info.width (pos 0)
    || ltb_ℤ info.step info.width
    || leb_ℤ info.height (pos 0)
    || leb_ℤ info.channels (pos 0)
