-- ===== src/Sparkplug/Address.antt =====
-- Class `Address`: a group, a node and perhaps a device.
pub mod RoundTrip
pub mod Matching
use amrc_connectivity_stack.Prelude.{
  ℕ, ◌≡◌, refl, Bool, true, false, ◌&&◌, ◌||◌, List, [], ◌∷◌, ◌++◌, Option, none, some, arith,
  if◌then◌else◌, ◌==◌, nat_eq, list_eq, option_eq,
}
use amrc_connectivity_stack.Text.{Text, codes, slash, split}

-- `undefined` is `none`; `parse` may leave the node undefined.
pub record Address : Type 0 where
  pub group : Text
  pub node : Option Text
  pub device : Option Text

-- The constructor: an empty device is no device.
abbrev device_of : Option Text → Option Text
device_of none = none
device_of (some []) = none
device_of (some (c ∷ s)) = some (c ∷ s)

unfoldable pub new_address : Text → Option Text → Option Text → Address
new_address group node device = record { group = group; node = node; device = device_of device }

-- `new Address(...addr.split("/"))`: further parts are not read.
unfoldable pub of_parts : List Text → Address
unfolding new_address
of_parts [] = new_address [] none none
of_parts (g ∷ []) = new_address g none none
of_parts (g ∷ n ∷ []) = new_address g (some n) none
of_parts (g ∷ n ∷ d ∷ _) = new_address g (some n) (some d)

unfoldable pub parse_address : Text → Address
unfolding of_parts split
parse_address s = of_parts (split s)

-- What `Address.from` may be given; `none` is its exception.
pub data Any : Type 0 where
  is_address : Address → Any
  is_string : Text → Any
  is_other : Any

unfoldable pub from_any : Any → Option Address
unfolding parse_address
from_any (is_address a) = some a
from_any (is_string s) = some (parse_address s)
from_any is_other = none

unfoldable pub equals : Address → Address → Bool
equals a b = a.group == b.group && a.node == b.node && a.device == b.device

abbrev pub plus : Text
plus = codes "+"

-- `p === a || (p == "+" && a != undefined)`
abbrev is_defined : Option Text → Bool
is_defined none = false
is_defined (some _) = true

abbrev pub wild : Option Text → Option Text → Bool
wild p a = p == a || (p == some plus && is_defined a)

unfoldable pub matches : Address → Address → Bool
matches a b = wild (some a.group) (some b.group) && wild a.node b.node && wild a.device b.device

unfoldable pub is_device : Address → Bool
is_device a = is_defined a.device

-- What a template literal prints of a value that may be undefined.
abbrev pub show : Option Text → Text
show none = codes "undefined"
show (some s) = s

unfoldable pub address_to_string : Address → Text
unfolding is_device
address_to_string a =
    let node = a.group ++ slash ∷ show a.node in
    if is_device a then node ++ slash ∷ show a.device else node

unfoldable pub parent_node : Address → Address
unfolding new_address
parent_node a = new_address a.group a.node none

unfoldable pub child_device : Address → Option Text → Address
unfolding new_address
child_device a device = new_address a.group a.node device

unfoldable pub is_child_of : Address → Address → Bool
unfolding parent_node equals
is_child_of a node = equals (parent_node a) node
