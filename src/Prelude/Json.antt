-- ===== src/Prelude/Json.antt =====
-- JSON values: the payload of a message, the data of an event. Numbers are natural numbers.
use Prim.Native.Nat.{ℕ}
use Prim.Native.String.{String}
use mathlib.Core.Bool.{Bool, true, false, not}
use mathlib.Core.List.{List, [], ◌∷◌}
use text.Mathlib.Text.{◌==◌ as str_eq}
use automated_workflow.Prelude.Tests.{◌==◌, if◌then◌else◌}

mutual
  pub data Json : Type 0 where
    null : Json
    bool : Bool → Json
    number : ℕ → Json
    str : String → Json
    array : Items → Json
    object : Fields → Json

  pub data Items : Type 0 where
    nil : Items
    cons : Json → Items → Items

  pub data Fields : Type 0 where
    end : Fields
    field : String → Json → Fields → Fields

-- `payload.get(key)`: null where the key is missing
unfoldable pub get : Fields → String → Json
get end key = null
get (field k v rest) key = if str_eq k key then v else get rest key

-- `key in payload`
unfoldable pub has_key : Fields → String → Bool
has_key end key = false
has_key (field k v rest) key = if str_eq k key then true else has_key rest key

-- `payload.pop(key)`
unfoldable pub without : Fields → String → Fields
without end key = end
without (field k v rest) key =
    let others = without rest key in if str_eq k key then others else field k v others

-- `payload[key] = value`: in place, or behind the others
unfoldable pub set_field : Fields → String → Json → Fields
set_field end key v = field key v end
set_field (field k w rest) key v =
    let others = set_field rest key v in if str_eq k key then field k v rest else field k w others

-- `str(value)`, where `py_str` is Python's rendering of what is no text.
abbrev pub as_text : (Json → String) → Json → String
as_text py_str (str s) = s
as_text py_str null = py_str null
as_text py_str (bool b) = py_str (bool b)
as_text py_str (number n) = py_str (number n)
as_text py_str (array xs) = py_str (array xs)
as_text py_str (object fs) = py_str (object fs)

-- Python's truth of a value
abbrev pub truthy : Json → Bool
truthy null = false
truthy (bool b) = b
truthy (number n) = not (n == 0)
truthy (str s) = not (str_eq s "")
truthy (array nil) = false
truthy (array (cons x xs)) = true
truthy (object end) = false
truthy (object (field k v rest)) = true

-- `value or fallback`
abbrev pub or_value : Json → Json → Json
or_value v w = if truthy v then v else w

-- `[str(path) for path in files]`, as a JSON array of texts
unfoldable pub texts : List String → Items
texts [] = nil
texts (s ∷ ss) = cons (str s) (texts ss)
