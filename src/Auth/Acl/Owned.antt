-- ===== src/Auth/Acl/Owned.antt =====
-- What each principal owns.
use amrc_connectivity_stack.Prelude.{
  ◌≡◌, ◌≢◌, ◌⊎◌, ◌↔◌, List, [], ◌∷◌, String, arith, string_eq, lookup, In, ==_iff,
}
use amrc_connectivity_stack.Auth.Uuids
use amrc_connectivity_stack.Auth.Acl.{or_empty, add_owned, build_owned}

abbrev Owns : String → List (String × List String) → String → Type 0
Owns owner m obj = In obj (or_empty (lookup owner m))

Owns-add_owned :
    (x obj k owner : String) (m : List (String × List String))
    → Owns owner (add_owned obj k m) x ↔ (((x ≡ obj) × (k ≡ owner)) ⊎ Owns owner m x)
unfolding add_owned
Owns-add_owned x obj k owner [] = ground (arith, ==_iff k owner)
Owns-add_owned x obj k owner ((o, objs) ∷ m) =
    ground (arith, ==_iff o k, ==_iff k owner, ==_iff o owner, Owns-add_owned x obj k owner m)

-- An owner's set holds exactly the objects that are registered with that owner, and the marker for
-- unowned objects own nothing.
build_owned_iff :
    (x owner : String) (es : List (String × String))
    → In x (or_empty (lookup owner (build_owned es)))
      ↔ (In (x, owner) es × (owner ≢ Uuids.Special.unowned))
unfolding build_owned
build_owned_iff x owner [] = (λ h. absurd h, λ h. absurd h.0)
build_owned_iff x owner ((obj, k) ∷ es) = ground (
  arith,
  ==_iff k Uuids.Special.unowned,
  Owns-add_owned x obj k owner (build_owned es),
  build_owned_iff x owner es,
)
