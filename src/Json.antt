-- ===== src/Json.antt =====
-- The JSON values that event payloads are made of. A number is a natural one: the payloads that are
-- modelled hold no other. A dict is its entries in order.
use mad_edge.Prelude.{◌≡◌, refl, ℕ, Bool, Option, none, some, String, str_eq, if◌then◌else◌}

mutual
  pub data Json : Type 0 where
    null : Json
    flag : Bool → Json
    num : ℕ → Json
    text : String → Json
    arr : Items → Json
    obj : Fields → Json

  pub data Items : Type 0 where
    nil : Items
    cons : Json → Items → Items

  pub data Fields : Type 0 where
    end : Fields
    field : String → Json → Fields → Fields

-- raw.get(key)
unfoldable pub get : String → Fields → Option Json
get k end = none
get k (field j v fs) = if str_eq j k then some v else get k fs

-- How the readers chain what may fail: an error is `none`.
infixl 5 ◌>>=◌
abbrev pub ◌>>=◌ {ℓ κ} : {A : Type ℓ} {B : Type κ} → Option A → (A → Option B) → Option B
none >>= f = none
some a >>= f = f a

-- What a chain that succeeds has passed through.
pub then_some :
    {A B : Type 0} (m : Option A) (f : A → Option B) (b : B)
    → (m >>= f) ≡ some b
    → (a : A) × (m ≡ some a) × (f a ≡ some b)
then_some none f b h = cc
then_some (some a) f b h = (a, refl, h)

-- A field that is a text or null, and one that is a number or null.
abbrev pub text_or_null : Option String → Json
text_or_null none = null
text_or_null (some s) = text s

abbrev pub num_or_null : Option ℕ → Json
num_or_null none = null
num_or_null (some n) = num n

-- raw[key], a text
unfoldable pub read_text : Option Json → Option String
read_text (some (text s)) = some s
read_text _ = none

-- raw.get(key, default), a text
unfoldable pub read_text_or : String → Option Json → Option String
read_text_or d none = some d
read_text_or d (some (text s)) = some s
read_text_or d _ = none

-- raw.get(key), a text or None
unfoldable pub read_optional : Option Json → Option (Option String)
read_optional none = some none
read_optional (some null) = some none
read_optional (some (text s)) = some (some s)
read_optional _ = none

-- raw.get(key), a number or None
unfoldable pub read_number : Option Json → Option (Option ℕ)
read_number none = some none
read_number (some null) = some none
read_number (some (num n)) = some (some n)
read_number _ = none

-- raw.get(key, []) and raw.get(key, {})
unfoldable pub read_items : Option Json → Option Items
read_items none = some nil
read_items (some (arr is)) = some is
read_items _ = none

unfoldable pub read_fields : Option Json → Option Fields
read_fields none = some end
read_fields (some (obj fs)) = some fs
read_fields _ = none
