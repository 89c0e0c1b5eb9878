-- ===== src/Sparkplug/Address/Matching.antt =====
-- Equality, wildcards and children of addresses.
use amrc_connectivity_stack.Prelude.{
  ◌≡◌, ◌≢◌, ◌⊎◌, ◌↔◌, true, Option, none, some, arith, ◌==◌, nat_eq, list_eq, option_eq, ==_iff,
}
use amrc_connectivity_stack.Text.{Text}
use amrc_connectivity_stack.Sparkplug.Address.{
  Address, plus, equals, matches, wild, parent_node, is_child_of,
}

-- `equals` decides whether two addresses are the same.
pub equals_iff : (a b : Address) → (equals a b ≡ true) ↔ (a ≡ b)
unfolding equals
equals_iff a b =
    ground (arith, ==_iff a.group b.group, ==_iff a.node b.node, ==_iff a.device b.device)

-- A field of a pattern: the same value, or "+" against any value that is there.
abbrev pub Fits : Option Text → Option Text → Type 0
Fits p a = (p ≡ a) ⊎ ((p ≡ some plus) × (a ≢ none))

wild_iff : (p a : Option Text) → (wild p a ≡ true) ↔ Fits p a
wild_iff p none = ground (arith, ==_iff p none, ==_iff p (some plus))
wild_iff p (some x) = ground (arith, ==_iff p (some x), ==_iff p (some plus))

-- `matches` holds exactly when each of the three fields is the same or is "+" against a value.
matches_iff :
    (a b : Address)
    → (matches a b ≡ true)
      ↔ (Fits (some a.group) (some b.group) × Fits a.node b.node × Fits a.device b.device)
unfolding matches
matches_iff a b = ground (
  arith,
  wild_iff (some a.group) (some b.group),
  wild_iff a.node b.node,
  wild_iff a.device b.device,
)

wild_of_literal : (p a : Option Text) → p ≢ some plus → wild p a ≡ (p == a)
wild_of_literal p a h = ground (arith, ==_iff p (some plus))

-- Against a pattern without "+" the wildcard match is equality.
matches_of_literal :
    (a b : Address)
    → a.group ≢ plus
    → a.node ≢ some plus
    → a.device ≢ some plus
    → matches a b ≡ equals a b
unfolding matches equals
matches_of_literal a b g n d = ground (
  arith,
  wild_of_literal (some a.group) (some b.group),
  wild_of_literal a.node b.node,
  wild_of_literal a.device b.device,
)

-- `is_child_of` asks whether the address without its device is the other: it holds of a device
-- below the node, and of the node itself.
is_child_of_iff :
    (a b : Address)
    → (is_child_of a b ≡ true) ↔ ((a.group ≡ b.group) × (a.node ≡ b.node) × (b.device ≡ none))
unfolding is_child_of parent_node equals
is_child_of_iff a b =
    ground (arith, ==_iff a.group b.group, ==_iff a.node b.node, ==_iff none b.device)
