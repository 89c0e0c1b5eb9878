-- ===== src/Sparkplug/Topic/RoundTrip.antt =====
-- Printing and parsing a topic.
use amrc_connectivity_stack.Prelude.{
  ℕ, ◌≡◌, refl, sym, ap, ◌∙◌, ◌≢◌, ◌⊎◌, inl, inr, false, List, [], ◌∷◌, ◌++◌, Option, none, some,
  arith, if◌then◌else◌, ◌==◌, nat_eq, list_eq, option_eq, append_assoc, ==_iff, All,
}
use amrc_connectivity_stack.Text.{
  Text, slash, split, NoSlash, split-append, split_of_NoSlash, split-All, join_of_split, join,
  is_line_end, take_line,
}
use amrc_connectivity_stack.Sparkplug.Address.{Address, plus, new_address}
use amrc_connectivity_stack.Sparkplug.Address.RoundTrip.{IsWellFormed, IsDeviceName}
use amrc_connectivity_stack.Sparkplug.Topic.{
  Topic, topic, not_topic, prefix, topic_kind, match_kind, kind_topic, parse_parts, parse_topic,
  typed, topic_to_string,
}

abbrev pub IsOneLine : Text → Type 0
IsOneLine = All (λ c. is_line_end c ≡ false)

-- A topic type that is one part of a topic string, and not the wildcard.
pub record IsTopicType (t : Text) : Type 0 where
  pub unsplit : NoSlash t
  pub one_line : IsOneLine t
  pub literal : t ≢ plus

take_line_of_IsOneLine : (t : Text) → IsOneLine t → take_line t ≡ t
take_line_of_IsOneLine [] h = refl
take_line_of_IsOneLine (c ∷ t) (hc, h) = rw hc (ap (c ∷◌) (take_line_of_IsOneLine t h))

match_kind_of_IsOneLine :
    (c : ℕ) (t : Text) → is_line_end c ≡ false → IsOneLine t → match_kind (c ∷ t) ≡ some (c, t)
unfolding match_kind
match_kind_of_IsOneLine c t hc h = rw (hc, take_line_of_IsOneLine t h)

typed_of_literal : (a : Address) (t : Text) → t ≢ plus → typed a t ≡ topic_kind a ∷ t
unfolding typed
typed_of_literal a t h = ground (arith, ==_iff t plus)

prefix-NoSlash : NoSlash prefix
prefix-NoSlash = omega arith

module _ (g n t : Text) (hg : NoSlash g) (hn : NoSlash n) (ht : IsTopicType t) where
  split_node_topic :
      (k : ℕ)
      → k ≢ slash
      → split (prefix ++ slash ∷ (g ++ slash ∷ ((k ∷ t) ++ slash ∷ n)))
        ≡ prefix ∷ g ∷ (k ∷ t) ∷ n ∷ []
  split_node_topic k hk = rw (
    split-append prefix (g ++ slash ∷ ((k ∷ t) ++ slash ∷ n)) prefix-NoSlash,
    split-append g ((k ∷ t) ++ slash ∷ n) hg,
    split-append (k ∷ t) n (hk, ht.unsplit),
    split_of_NoSlash n hn,
  )

  split_device_topic :
      (k : ℕ) (d : Text)
      → k ≢ slash
      → NoSlash d
      → split (prefix ++ slash ∷ (g ++ slash ∷ ((k ∷ t) ++ slash ∷ (n ++ slash ∷ d))))
        ≡ prefix ∷ g ∷ (k ∷ t) ∷ n ∷ d ∷ []
  split_device_topic k d hk hd = rw (
    split-append prefix (g ++ slash ∷ ((k ∷ t) ++ slash ∷ (n ++ slash ∷ d))) prefix-NoSlash,
    split-append g ((k ∷ t) ++ slash ∷ (n ++ slash ∷ d)) hg,
    split-append (k ∷ t) (n ++ slash ∷ d) (hk, ht.unsplit),
    split-append n d hn,
    split_of_NoSlash d hd,
  )

  printed_node :
      (a : Address)
      → a ≡ record { group = g; node = some n; device = none }
      → topic_to_string (record { address = a; type = t })
        ≡ prefix ++ slash ∷ (g ++ slash ∷ ((b'N' ∷ t) ++ slash ∷ n))
  unfolding topic_to_string
  printed_node a e = rw (typed_of_literal a t ht.literal, e)

  printed_device :
      (a : Address) (c : ℕ) (d : Text)
      → a ≡ record { group = g; node = some n; device = some (c ∷ d) }
      → topic_to_string (record { address = a; type = t })
        ≡ prefix ++ slash ∷ (g ++ slash ∷ ((b'D' ∷ t) ++ slash ∷ (n ++ slash ∷ c ∷ d)))
  unfolding topic_to_string
  printed_device a c d e = rw (typed_of_literal a t ht.literal, e) (simp append_assoc)

  parse_parts_node :
      parse_parts (prefix ∷ g ∷ (b'N' ∷ t) ∷ n ∷ [])
      ≡ topic (record { address = record { group = g; node = some n; device = none }; type = t })
  unfolding parse_parts
  parse_parts_node = rw (take_line_of_IsOneLine t ht.one_line)

  parse_parts_device :
      (c : ℕ) (d : Text)
      → parse_parts (prefix ∷ g ∷ (b'D' ∷ t) ∷ n ∷ (c ∷ d) ∷ [])
        ≡ topic (record {
          address = record { group = g; node = some n; device = some (c ∷ d) };
          type = t;
        })
  unfolding parse_parts
  parse_parts_device c d = rw (take_line_of_IsOneLine t ht.one_line)

  parse_topic-parts :
      (a : Address) (d : Option Text)
      → IsDeviceName d
      → a ≡ record { group = g; node = some n; device = d }
      → parse_topic (topic_to_string (record { address = a; type = t }))
        ≡ topic (record { address = record { group = g; node = some n; device = d }; type = t })
  unfolding parse_topic
  parse_topic-parts a none hd e =
      ap parse_parts (ap split (printed_node a e) ∙ split_node_topic b'N' (omega arith))
      ∙ parse_parts_node
  parse_topic-parts a (some []) hd e = absurd (hd.0 refl)
  parse_topic-parts a (some (c ∷ d)) hd e =
      ap parse_parts
        (ap split (printed_device a c d e) ∙ split_device_topic b'D' (c ∷ d) (omega arith) hd.1)
      ∙ parse_parts_device c d

-- A topic with a well-formed address, and with a type that holds no slash and no line end and is
-- not "+", is read back as it was by `Topic.parse` from what `toString` prints.
pub parse_topic-topic_to_string :
    (t : Topic)
    → IsWellFormed t.address
    → IsTopicType t.type
    → parse_topic (topic_to_string t) ≡ topic t
parse_topic-topic_to_string t w ht =
    let a = t.address in
    let same : a ≡ record { group = a.group; node = some w.name; device = a.device } =
      λ i. record { group = a.group; node = w.named i; device = a.device } in
    parse_topic-parts a.group w.name t.type w.group w.node ht a a.device w.device same
    ∙ ap (λ (b : Address). topic (record { address = b; type = t.type })) (sym same)

-- What holds when four or five parts are read as a topic.
topic_parts :
    (p : Text) (a : Address) (k : ℕ) (y : Text) (t : Topic)
    → IsOneLine (k ∷ y)
    → (if p == prefix then kind_topic a (match_kind (k ∷ y)) else not_topic) ≡ topic t
    → (p ≡ prefix) × (k ≡ topic_kind a) × (t ≡ record { address = a; type = y })
topic_parts p a k y t (hk, hy) e =
    ground (arith, ==_iff p prefix, ==_iff k (topic_kind a), match_kind_of_IsOneLine k y hk hy)

-- The parts of a string that is read as a topic, joined, are what `toString` prints, or that and
-- one more slash where the device is empty.
parse_parts_sound :
    (ps : List Text) (t : Topic)
    → All IsOneLine ps
    → t.type ≢ plus
    → parse_parts ps ≡ topic t
    → (join ps ≡ topic_to_string t) ⊎ (join ps ≡ topic_to_string t ++ slash ∷ [])
unfolding parse_parts topic_to_string
parse_parts_sound (p ∷ g ∷ [] ∷ n ∷ []) t h ht e = ground (arith, ==_iff p prefix)
parse_parts_sound (p ∷ g ∷ (k ∷ y) ∷ n ∷ []) t h ht e =
    let (ep, ek, et) = topic_parts p (new_address g (some n) none) k y t h.1.1.0 e in
    inl (rw (ep, ek, et, typed_of_literal _ y (rw et at ht)))
parse_parts_sound (p ∷ g ∷ [] ∷ n ∷ d ∷ []) t h ht e = ground (arith, ==_iff p prefix)
parse_parts_sound (p ∷ g ∷ (k ∷ y) ∷ n ∷ [] ∷ []) t h ht e =
    let (ep, ek, et) = topic_parts p (new_address g (some n) (some [])) k y t h.1.1.0 e in
    inr (rw (ep, ek, et, typed_of_literal _ y (rw et at ht)) (simp append_assoc))
parse_parts_sound (p ∷ g ∷ (k ∷ y) ∷ n ∷ (c ∷ d) ∷ []) t h ht e =
    let (ep, ek, et) = topic_parts p (new_address g (some n) (some (c ∷ d))) k y t h.1.1.0 e in
    inl (rw (ep, ek, et, typed_of_literal _ y (rw et at ht)) (simp append_assoc))
parse_parts_sound _ t h ht e = cc

-- A string with no line end that `Topic.parse` reads as a topic whose type is not "+" is what
-- `toString` prints of that topic, or that followed by one slash (an empty device).
pub topic_to_string-parse_topic :
    (s : Text) (t : Topic)
    → IsOneLine s
    → t.type ≢ plus
    → parse_topic s ≡ topic t
    → (s ≡ topic_to_string t) ⊎ (s ≡ topic_to_string t ++ slash ∷ [])
unfolding parse_topic
topic_to_string-parse_topic s t h ht e =
    rw (join_of_split s (split s) refl) at
      (parse_parts_sound (split s) t (split-All (λ c. is_line_end c ≡ false) s h) ht e)
