-- ===== src/Common/Json.antt =====
-- Portable JSON values as the code receives them, and the reads that the codecs make.
use Prim.Native.Nat.{ℕ}
use Prim.Native.String.{String}
use text.Mathlib.Text.{◌==◌}
use mathlib.Core.Bool.{Bool, true, false}
use mathlib.Core.Option.{Option, none, some}
use openma_common.Common.Tests.{if◌then◌else◌}
use openma_common.Common.Texts.{non_empty}

-- A finite JavaScript number: a natural one, or any other by the text that prints it.
pub data Number : Type 0 where
  natural : ℕ → Number
  other : String → Number

mutual
  pub data Json : Type 0 where
    null : Json
    bool : Bool → Json
    num : Number → Json
    str : String → Json
    arr : Items → Json
    obj : Fields → Json

  pub data Items : Type 0 where
    nil : Items
    cons : Json → Items → Items

  pub data Fields : Type 0 where
    end : Fields
    field : String → Json → Fields → Fields

-- o.key, where an absent property is undefined.
unfoldable pub property : String → Fields → Option Json
property k end = none
property k (field j v fs) = if j == k then some v else property k fs

-- A property that is a text; a non-empty text; a text that is absent, and not of another type.
abbrev pub as_text : Option Json → Option String
as_text (some (str s)) = some s
as_text _ = none

abbrev pub as_truthy_text : Option Json → Option String
as_truthy_text (some (str s)) = if non_empty s then some s else none
as_truthy_text _ = none

unfoldable pub text_at : String → Fields → Option String
unfolding property
text_at k fs = as_text (property k fs)

unfoldable pub truthy_text_at : String → Fields → Option String
unfolding property
truthy_text_at k fs = as_truthy_text (property k fs)

-- x.key on a value that may be no object; the codecs' keys are no property of a text or an array.
unfoldable pub fields_of : Json → Fields
fields_of (obj fs) = fs
fields_of _ = end

-- A spread `...(test ? { key: value } : {})` in front of the fields that follow.
unfoldable pub field_if : Bool → String → Json → Fields → Fields
field_if true k v fs = field k v fs
field_if false k v fs = fs
