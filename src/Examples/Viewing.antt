-- ===== src/Examples/Viewing.antt =====
-- A concrete JSON library, whole numbers for doubles, and a view model with one buffer.
use open_image_debugger.Prelude.{
  ℕ, zero, suc, ◌≡◌, refl, inl, inr, Bool, true, false, Option, none, some, List, [], ◌∷◌, ltb, ◌^◌,
  if◌then◌else◌, ℤ, pos, negsuc, leb_ℤ, ltb_ℤ, ◌+ℤ◌, length, Str, Dict, find, codes, str_eq, arith,
  Bool-cases, subst,
}
use open_image_debugger.Host.Agent.Values.{Doubles, JsonLibrary, IsI64, strtoll}
use open_image_debugger.Host.Agent.ViewModel.{BufferInfo, ViewState, ViewModel}
use open_image_debugger.Host.Agent.AgentCore.Handlers.{AgentCore}

mutual
  pub data Value : Type 0 where
    null_value : Value
    boolean_value : Bool → Value
    integer_value : ℤ → Value
    number_value : ℤ → Value
    string_value : Str → Value
    array_value : Values → Value
    object_value : Fields → Value

  pub data Values : Type 0 where
    no_values : Values
    add_value : Value → Values → Values

  pub data Fields : Type 0 where
    no_fields : Fields
    add_field : Str → Value → Fields → Fields

abbrev pub from_list : List Value → Values
from_list [] = no_values
from_list (v ∷ vs) = add_value v (from_list vs)

abbrev pub to_list : Values → List Value
to_list no_values = []
to_list (add_value v vs) = v ∷ to_list vs

abbrev pub from_dict : Dict Value → Fields
from_dict [] = no_fields
from_dict ((k, v) ∷ m) = add_field k v (from_dict m)

abbrev pub lookup : Str → Fields → Option Value
lookup k no_fields = none
lookup k (add_field i v m) = if str_eq i k then some v else lookup k m

abbrev pub value_is_object : Value → Bool
value_is_object (object_value m) = true
value_is_object _ = false

abbrev pub value_member : Str → Value → Option Value
value_member k (object_value m) = lookup k m
value_member k _ = none

abbrev pub value_as_string : Value → Option Str
value_as_string (string_value s) = some s
value_as_string _ = none

abbrev pub value_as_boolean : Value → Option Bool
value_as_boolean (boolean_value b) = some b
value_as_boolean _ = none

abbrev pub fits_int64 : ℤ → Bool
fits_int64 (pos n) = ltb n (2 ^ 63)
fits_int64 (negsuc n) = ltb n (2 ^ 63)

abbrev pub value_as_integer : Value → Option ℤ
value_as_integer (integer_value n) = if fits_int64 n then some n else none
value_as_integer _ = none

abbrev pub value_as_number : Value → Option ℤ
value_as_number (integer_value n) = some n
value_as_number (number_value n) = some n
value_as_number _ = none

abbrev pub value_as_array : Value → Option (List Value)
value_as_array (array_value vs) = some (to_list vs)
value_as_array _ = none

pub lookup-from_dict : (k : Str) (m : Dict Value) → lookup k (from_dict m) ≡ find k m
unfolding find
lookup-from_dict k [] = refl
lookup-from_dict k ((i, v) ∷ m) = elim (Bool-cases (str_eq i k)) [
  | inl same ↦ rw same refl
  | inr other ↦ rw other (lookup-from_dict k m)
]

pub some_inj : {A : Type 0} {x y : A} → some x ≡ some y → x ≡ y
some_inj h = cc

fits_int64-IsI64 : (n : ℤ) → fits_int64 n ≡ true → IsI64 n
fits_int64-IsI64 (pos n) h = ground (arith, h)
fits_int64-IsI64 (negsuc n) h = ground (arith, h)

if_fits-IsI64 :
    (m n : ℤ) (b : Bool) → fits_int64 m ≡ b → (if b then some m else none) ≡ some n → IsI64 n
if_fits-IsI64 m n true fits h = subst IsI64 (some_inj h) (fits_int64-IsI64 m fits)
if_fits-IsI64 m n false fits h = cc

pub value_as_integer-IsI64 : (v : Value) (n : ℤ) → value_as_integer v ≡ some n → IsI64 n
value_as_integer-IsI64 (integer_value m) n h = if_fits-IsI64 m n (fits_int64 m) refl h
value_as_integer-IsI64 _ n h = cc

abbrev pub values_library : JsonLibrary ℤ Value
values_library = record {
  is_object = value_is_object;
  member = value_member;
  as_string = value_as_string;
  as_boolean = value_as_boolean;
  as_integer = value_as_integer;
  as_number = value_as_number;
  as_array = value_as_array;
  null = null_value;
  string = string_value;
  boolean = boolean_value;
  integer = integer_value;
  number = number_value;
  array = λ vs. array_value (from_list vs);
  object = λ m. object_value (from_dict m);
  as_integer-IsI64 = value_as_integer-IsI64;
  member-object = lookup-from_dict;
  as_string-string = λ s. refl;
}

abbrev pub whole_part : Option (ℤ × Str) → ℤ
whole_part none = pos 0
whole_part (some (n, s)) = n

-- Whole numbers in place of doubles.
abbrev pub whole_numbers : Doubles ℤ
whole_numbers = record {
  literal = λ s. whole_part (strtoll s);
  float_max = pos (2 ^ 127);
  float_min = pos 1;
  pi = pos 3;
  is_finite = λ x. true;
  less = ltb_ℤ;
  at_most = leb_ℤ;
  abs = λ x. x;
  log = λ x. x;
  fmod = λ x y. x;
  add = λ x y. x +ℤ y;
  times = λ x y. x;
  divided_by = λ x y. x;
}

pub record Viewer : Type 0 where
  pub buffers : List BufferInfo
  pub selected : Option Str
  pub contrast : Bool
  pub power : ℤ

abbrev pub named : Str → List BufferInfo → Option BufferInfo
named name [] = none
named name (b ∷ bs) = if str_eq b.name name then some b else named name bs

abbrev pub at : ℕ → List BufferInfo → Option BufferInfo
at i [] = none
at zero (b ∷ bs) = some b
at (suc i) (b ∷ bs) = at i bs

abbrev pub view : Str → Viewer → ViewState ℤ
view name s = record {
  buffer = some name;
  center_x = some (pos 0);
  center_y = some (pos 0);
  zoom = some s.power;
  rotation_deg = some (pos 0);
  channel = codes "all";
  auto_contrast = s.contrast;
  viewport_w = pos 640;
  viewport_h = pos 480;
}

abbrev pub viewer_model : ViewModel ℤ Viewer
viewer_model = record {
  buffer_count = λ s. length s.buffers;
  buffer_at = λ i s. at i s.buffers;
  buffer_named = λ name s. named name s.buffers;
  read_pixels = λ name s. some (1 ∷ 2 ∷ []);
  select = λ name s. (true, record s { selected = some name });
  selected_name = λ s. s.selected;
  view_of = λ name s. some (view name s);
  set_center = λ name x y s. (true, s);
  set_zoom_power = λ name x s. (true, record s { power = x });
  set_rotation_rad = λ name x s. (true, s);
  set_channel = λ name mode index s. (true, s);
  auto_contrast = λ s. s.contrast;
  set_auto_contrast = λ b s. record s { contrast = b };
  viewport_size = λ s. (pos 640, pos 480);
}

abbrev pub small_image : BufferInfo
small_image = record {
  name = codes "img";
  display_name = codes "img (Mat)";
  width = pos 2;
  height = pos 1;
  channels = pos 1;
  step = pos 2;
  type = pos 0;
  pixel_layout = codes "rgba";
  transpose = false;
}

abbrev pub viewer : Viewer
viewer = record { buffers = small_image ∷ []; selected = none; contrast = true; power = pos 1 }

abbrev pub core : AgentCore
core = record { token = codes "a1"; pid = pos 7; session_kind = codes "viewer" }
