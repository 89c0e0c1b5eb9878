-- ===== src/EdgeAgent/Metrics/Lookup.antt =====
-- What an object of class `Metrics` finds, however it was made
-- (acs-edge/lib/helpers/typeHandler.ts).
use amrc_connectivity_stack.Prelude.{
  ℕ, ◌≡◌, refl, sym, ap, ◌∙◌, subst, inl, inr, List, ◌++◌, Option, none, some, nat_eq, list_eq,
  lookup, Option-cases, arith,
}
use amrc_connectivity_stack.Text.{Text}
use amrc_connectivity_stack.EdgeAgent.Types.{Metric, Value}
use amrc_connectivity_stack.EdgeAgent.Metrics.{
  nth, modify, Indices, no_indices, Clock, Metrics, readable_addr, path_of, addr_path,
  build_indices, of_array, add, set_alias, updated, set_value_by_index, set_value_at,
  set_value_by_name, set_value_by_alias, set_value_by_addr_path,
}
use amrc_connectivity_stack.EdgeAgent.Metrics.Building.{
  first_of, last_index, last_index-append, last_index-modify, named, read_at, lookup-build_from,
  addr_path-build_from,
}

-- The operations that change an object.
pub data Operation (F : Type 0) : Type 0 where
  adding : List (Metric F) → Operation F
  aliasing : ℕ → ℕ → Operation F
  setting_index : Clock → ℕ → Value F → Option ℕ → Option ℕ → Operation F
  setting_name : Clock → Text → Value F → Option ℕ → Option ℕ → Operation F
  setting_alias : Clock → ℕ → Value F → Option ℕ → Option ℕ → Operation F
  setting_addr_path : Clock → Text → Text → Value F → Option ℕ → Option ℕ → Operation F

-- The indices give the last metric of each name, and the last that is read at each address and path.
pub record IsIndexed {F : Type 0} (x : Metrics F) : Type 0 where
  pub names : (n : Text) → lookup n x.indices.name_index ≡ last_index (named n) 0 x.array
  pub paths : (a p : Text) → addr_path a p x.indices ≡ last_index (read_at a p) 0 x.array

module _ {F : Type 0} where
  abbrev pub run : Operation F → Metrics F → Option (Metrics F)
  run (adding ms) x = some (add ms x)
  run (aliasing i a) x = set_alias i a x
  run (setting_index c i v t tns) x = set_value_by_index c i v t tns x
  run (setting_name c n v t tns) x = set_value_by_name c n v t tns x
  run (setting_alias c a v t tns) x = set_value_by_alias c a v t tns x
  run (setting_addr_path c a p v t tns) x = set_value_by_addr_path c a p v t tns x

  -- What the constructor makes, and what the operations that do not throw make of it.
  pub data Made : Metrics F → Type 0 where
    made : (ms : List (Metric F)) (x : Metrics F) → x ≡ of_array ms → Made x
    after : (x y : Metrics F) (o : Operation F) → Made x → run o x ≡ some y → Made y

  of_array-IsIndexed : (ms : List (Metric F)) → IsIndexed (of_array ms)
  unfolding of_array build_indices addr_path
  of_array-IsIndexed ms = record {
    names = λ n. ground (arith, lookup-build_from n 0 ms no_indices);
    paths = λ a p. ground (arith, addr_path-build_from a p 0 ms no_indices);
  }

  add-IsIndexed : (ms : List (Metric F)) (x : Metrics F) → IsIndexed x → IsIndexed (add ms x)
  unfolding add build_indices
  add-IsIndexed ms x h = record {
    names = λ n.
        lookup-build_from n 0 (x.array ++ ms) x.indices
        ∙ ap (first_of (last_index (named n) 0 (x.array ++ ms))) (h.names n)
        ∙ last_index-append (named n) 0 x.array ms;
    paths = λ a p.
        addr_path-build_from a p 0 (x.array ++ ms) x.indices
        ∙ ap (first_of (last_index (read_at a p) 0 (x.array ++ ms))) (h.paths a p)
        ∙ last_index-append (read_at a p) 0 x.array ms;
  }

  modify-IsIndexed :
      (f : Metric F → Metric F) (i : ℕ) (x y : Metrics F)
      → ((n : Text) (m : Metric F) → named n (f m) ≡ named n m)
      → ((a p : Text) (m : Metric F) → read_at a p (f m) ≡ read_at a p m)
      → y.array ≡ modify f i x.array
      → y.indices ≡ x.indices
      → IsIndexed x
      → IsIndexed y
  modify-IsIndexed f i x y hn hp ha hi h = record {
    names = λ n.
        ap (λ (d : Indices). lookup n d.name_index) hi
        ∙ h.names n
        ∙ sym (last_index-modify (named n) f 0 i x.array (hn n))
        ∙ ap (last_index (named n) 0) (sym ha);
    paths = λ a p.
        ap (addr_path a p) hi
        ∙ h.paths a p
        ∙ sym (last_index-modify (read_at a p) f 0 i x.array (hp a p))
        ∙ ap (last_index (read_at a p) 0) (sym ha);
  }

  set_alias-IsIndexed :
      (i a : ℕ) (x y : Metrics F) → set_alias i a x ≡ some y → IsIndexed x → IsIndexed y
  unfolding set_alias readable_addr path_of
  set_alias-IsIndexed i a x y e h = elim (Option-cases (nth i x.array)) [
    | inl d ↦ ground arith
    | inr (m, d) ↦
        modify-IsIndexed (λ (m : Metric F). record m { alias = some a }) i x y (λ n m. refl)
          (λ b p m. refl) (ground arith) (ground arith) h
  ]

  set_value_by_index-IsIndexed :
      (c : Clock) (i : ℕ) (v : Value F) (t tns : Option ℕ) (x y : Metrics F)
      → set_value_by_index c i v t tns x ≡ some y
      → IsIndexed x
      → IsIndexed y
  unfolding set_value_by_index updated readable_addr path_of
  set_value_by_index-IsIndexed c i v t tns x y e h = elim (Option-cases (nth i x.array)) [
    | inl d ↦ ground arith
    | inr (m, d) ↦
        modify-IsIndexed (updated c v t tns) i x y (λ n m. refl) (λ b p m. refl) (ground arith)
          (ground arith) h
  ]

  set_value_at-IsIndexed :
      (o : Option ℕ) (c : Clock) (v : Value F) (t tns : Option ℕ) (x y : Metrics F)
      → set_value_at c o v t tns x ≡ some y
      → IsIndexed x
      → IsIndexed y
  set_value_at-IsIndexed none c v t tns x y e h = cc
  set_value_at-IsIndexed (some i) c v t tns x y e h =
      set_value_by_index-IsIndexed c i v t tns x y e h

  run-IsIndexed : (o : Operation F) (x y : Metrics F) → run o x ≡ some y → IsIndexed x → IsIndexed y
  unfolding set_value_by_name set_value_by_alias set_value_by_addr_path
  run-IsIndexed (adding ms) x y e h = subst IsIndexed (cc) (add-IsIndexed ms x h)
  run-IsIndexed (aliasing i a) x y e h = set_alias-IsIndexed i a x y e h
  run-IsIndexed (setting_index c i v t tns) x y e h =
      set_value_by_index-IsIndexed c i v t tns x y e h
  run-IsIndexed (setting_name c n v t tns) x y e h =
      set_value_at-IsIndexed (lookup n x.indices.name_index) c v t tns x y e h
  run-IsIndexed (setting_alias c a v t tns) x y e h =
      set_value_at-IsIndexed (lookup a x.alias_index) c v t tns x y e h
  run-IsIndexed (setting_addr_path c a p v t tns) x y e h =
      set_value_at-IsIndexed (addr_path a p x.indices) c v t tns x y e h

  pub Made-IsIndexed : (x : Metrics F) → Made x → IsIndexed x
  Made-IsIndexed x (Made.made ms _ e) = subst IsIndexed (sym e) (of_array-IsIndexed ms)
  Made-IsIndexed y (Made.after x _ o w e) = run-IsIndexed o x y e (Made-IsIndexed x w)
