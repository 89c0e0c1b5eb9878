-- ===== src/Auth/Store/Rows.antt =====
-- The rows of the table `ace`: its constraints, and what finding, deleting and updating do to them.
use mathlib.Core.Option.{some-injective}
use mathlib.Core.Path.{subst}
use amrc_connectivity_stack.Prelude.{
  ℕ, ◌≡◌, inl, inr, sym, All-imp, All-In, Bool, true, false, ◌&&◌, List, [], ◌∷◌, none, some,
  String, arith, ◌==◌, string_eq, nat_eq, All, Distinct, Distinct-filter, In, ==_iff, Bool-cases,
}
use amrc_connectivity_stack.Auth.Store.{Ace, Given, same_key, find_row, has_uuid, delete_row}

abbrev pub same_id : Ace → Ace → Bool
same_id a b = b.id == a.id

abbrev pub same_uuid : Ace → Ace → Bool
same_uuid a b = b.uuid == a.uuid

abbrev pub given_of : Ace → Given
given_of a = record {
  principal = a.principal;
  permission = a.permission;
  target = a.target;
  plural = a.plural;
}

abbrev pub key_clash : Ace → Ace → Bool
key_clash a b = same_key (given_of a) b

-- The primary key and the two unique constraints.
pub record AreRows (rows : List Ace) : Type 0 where
  pub ids : Distinct same_id rows
  pub uuids : Distinct same_uuid rows
  pub keys : Distinct key_clash rows

pub find_row_sound :
    (test : Ace → Bool) (rows : List Ace) (a : Ace)
    → find_row test rows ≡ some a
    → In a rows × (test a ≡ true)
unfolding find_row
find_row_sound test [] a e = cc
find_row_sound test (b ∷ rows) a e = elim (Bool-cases (test b)) [
  | inl y ↦
      let same : b ≡ a = some-injective b a (rw y at e) in
      (inl (sym same), subst (λ c. test c ≡ true) same y)
  | inr n ↦ let (i, y) = find_row_sound test rows a (rw n at e) in (inr i, y)
]

pub find_row-none :
    (test : Ace → Bool) (rows : List Ace)
    → find_row test rows ≡ none
    → All (λ a. test a ≡ false) rows
unfolding find_row
find_row-none test [] e = tt
find_row-none test (b ∷ rows) e = ground (arith, find_row-none test rows)

pub has_uuid-false :
    (u : String) (rows : List Ace) → has_uuid u rows ≡ false → All (λ a. (a.uuid == u) ≡ false) rows
unfolding has_uuid
has_uuid-false u [] e = tt
has_uuid-false u (a ∷ rows) e = ground (arith, has_uuid-false u rows)

pub delete_row-AreRows : (id : ℕ) (rows : List Ace) → AreRows rows → AreRows (delete_row id rows)
unfolding delete_row
delete_row-AreRows id rows h = record {
  ids = Distinct-filter same_id _ rows h.ids;
  uuids = Distinct-filter same_uuid _ rows h.uuids;
  keys = Distinct-filter key_clash _ rows h.keys;
}

same_id_sym : (a b : Ace) → same_id a b ≡ same_id b a
same_id_sym a b = ground (arith, ==_iff a.id b.id, ==_iff b.id a.id)

-- A row is the only one with its id.
pub unique_row :
    (p : String) (a : Ace) (rows : List Ace)
    → Distinct same_id rows
    → In a rows
    → (a.permission == p) ≡ false
    → All (λ b. (b.id == a.id && b.permission == p) ≡ false) rows
unique_row p a [] d i n = tt
unique_row p a (b ∷ rows) d (inl e) n =
    let d' = subst (λ c. Distinct same_id (c ∷ rows)) (sym e) d in
    subst (λ c. All (λ b. (b.id == a.id && b.permission == p) ≡ false) (c ∷ rows)) e
      (
        ground arith,
        All-imp (λ b. same_id a b ≡ false) (λ b. (b.id == a.id && b.permission == p) ≡ false) rows
            (λ b f. ground arith) d'.0,
      )
unique_row p a (b ∷ rows) d (inr i) n =
    let other = All-In (λ c. same_id b c ≡ false) a rows d.0 i in
    (ground (arith, same_id_sym a b), unique_row p a rows d.1 i n)
