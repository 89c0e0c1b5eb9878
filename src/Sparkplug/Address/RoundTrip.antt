-- ===== src/Sparkplug/Address/RoundTrip.antt =====
-- Printing and parsing an address.
use amrc_connectivity_stack.Prelude.{
  ◌≡◌, refl, ◌≢◌, ◌⊎◌, inl, inr, [], ◌∷◌, ◌++◌, Option, none, some, nat_eq, list_eq, option_eq,
  append_assoc,
}
use amrc_connectivity_stack.Text.{
  Text, slash, split, NoSlash, join_of_split, split-append, split_of_NoSlash,
}
use amrc_connectivity_stack.Sparkplug.Address.{
  Address, address_to_string, parse_address, is_device, of_parts,
}

abbrev pub IsDeviceName : Option Text → Type 0
IsDeviceName none = Unit
IsDeviceName (some d) = (d ≢ []) × NoSlash d

-- The node is given, no part holds a slash, and the device is not empty.
pub record IsWellFormed (a : Address) : Type 0 where
  pub group : NoSlash a.group
  pub name : Text
  pub named : a.node ≡ some name
  pub node : NoSlash name
  pub device : IsDeviceName a.device

parse-address_to_string_parts :
    (g n : Text) (d : Option Text)
    → NoSlash g
    → NoSlash n
    → IsDeviceName d
    → parse_address (address_to_string (record { group = g; node = some n; device = d }))
      ≡ record { group = g; node = some n; device = d }
unfolding parse_address address_to_string is_device of_parts
parse-address_to_string_parts g n none hg hn hd = rw (split-append g n hg, split_of_NoSlash n hn)
parse-address_to_string_parts g n (some []) hg hn hd = absurd (hd.0 refl)
parse-address_to_string_parts g n (some (c ∷ d)) hg hn hd = simp append_assoc (
    rw (
      split-append g (n ++ slash ∷ c ∷ d) hg,
      split-append n (c ∷ d) hn,
      split_of_NoSlash (c ∷ d) hd.1,
    ))

-- An address whose node is given, whose parts hold no slash and whose device, if it has one, is
-- not empty is read back as it was by `Address.parse` from what `toString` prints.
pub parse_address-address_to_string :
    (a : Address) → IsWellFormed a → parse_address (address_to_string a) ≡ a
parse_address-address_to_string a w =
    let same : a ≡ record { group = a.group; node = some w.name; device = a.device } =
      λ i. record { group = a.group; node = w.named i; device = a.device } in
    rw same (parse-address_to_string_parts a.group w.name a.device w.group w.node w.device)

-- `Address.parse` loses nothing of a string with two parts, or with three of which the last is not
-- empty: `toString` prints it again.
address_to_string-parse_address :
    (g n : Text) (s : Text)
    → (split s ≡ g ∷ n ∷ []) ⊎ ((d : Text) × (d ≢ []) × (split s ≡ g ∷ n ∷ d ∷ []))
    → address_to_string (parse_address s) ≡ s
unfolding parse_address address_to_string
address_to_string-parse_address g n s (inl e) = rw e (join_of_split s _ e)
address_to_string-parse_address g n s (inr ([], h, e)) = absurd (h refl)
address_to_string-parse_address g n s (inr (c ∷ d, h, e)) =
    rw e (simp append_assoc (join_of_split s _ e))
