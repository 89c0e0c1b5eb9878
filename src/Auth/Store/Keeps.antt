-- ===== src/Auth/Store/Keeps.antt =====
-- Every request keeps the constraints of the table.
use amrc_connectivity_stack.Prelude.{
  ℕ, ◌+◌, ◌<◌, ◌≡◌, inl, inr, ◌∙◌, Bool, true, false, Option, none, some, String, arith,
  if◌then◌else◌, ◌==◌, string_eq, nat_eq, All, All-imp, All-filter, Bool-cases, Option-cases,
}
use amrc_connectivity_stack.Auth.Store.{
  Reply, reply, throws, Given, Store, same_key, uuid_find, grant_resolve_uuids, find_row, has_uuid,
  insert_grant, grant_new, delete_row, grant_delete, clashes, grant_update, change_grant, run_grant,
  grant_request, GrantRequest, grant_find, Found, missing, forbidden, not_callable, found,
  may_write,
}
use amrc_connectivity_stack.Auth.Store.Rows.{
  AreRows, find_row-none, has_uuid-false, delete_row-AreRows,
}
use amrc_connectivity_stack.Auth.Store.Update.{update_row-All, update_row-AreRows}

-- The table's constraints hold, and the sequence is ahead of every id.
pub record IsValid (s : Store) : Type 0 where
  pub rows : AreRows s.aces
  pub below : All (λ a. a.id < s.next_id) s.aces

uuid_find_keeps :
    (u : String) (s : Store)
    → ((uuid_find u s).aces ≡ s.aces) × ((uuid_find u s).next_id ≡ s.next_id)
unfolding uuid_find
uuid_find_keeps u s = ground arith

pub resolve_keeps :
    (g : Given) (s : Store)
    → ((grant_resolve_uuids g s).aces ≡ s.aces) × ((grant_resolve_uuids g s).next_id ≡ s.next_id)
unfolding grant_resolve_uuids
resolve_keeps g s =
    let s₁ = uuid_find g.principal s in
    let s₂ = uuid_find g.permission s₁ in
    let (a, n) = uuid_find_keeps g.principal s in
    let (b, m) = uuid_find_keeps g.permission s₁ in
    let (c, k) = uuid_find_keeps g.target s₂ in (c ∙ b ∙ a, k ∙ m ∙ n)

resolve-IsValid : (g : Given) {s : Store} → IsValid s → IsValid (grant_resolve_uuids g s)
resolve-IsValid g {s} v = record {
  rows = rw ((resolve_keeps g s).0) v.rows;
  below = rw ((resolve_keeps g s).0, (resolve_keeps g s).1) v.below;
}

insert_grant-IsValid :
    (fresh : String) (g : Given) {s : Store}
    → IsValid s
    → All (λ a. same_key g a ≡ false) s.aces
    → IsValid (insert_grant fresh g s).1
unfolding insert_grant
insert_grant-IsValid fresh g {s} v new = elim (Bool-cases (has_uuid fresh s.aces)) [
  | inl y ↦ rw y v
  | inr n ↦ rw n (record {
    rows = record {
      ids = (
        All-imp (λ a. a.id < s.next_id) (λ a. (a.id == s.next_id) ≡ false) s.aces
            (λ a l. ground arith) v.below,
        v.rows.ids,
      );
      uuids = (has_uuid-false fresh s.aces n, v.rows.uuids);
      keys = (new, v.rows.keys);
    };
    below = (
      omega arith,
      All-imp (λ a. a.id < s.next_id) (λ a. a.id < s.next_id + 1) s.aces (λ a l. omega arith)
          v.below,
    );
  })
]

pub grant_new-IsValid :
    (fresh : String) (g : Given) {s : Store} → IsValid s → IsValid (grant_new fresh g s).1
unfolding grant_new
grant_new-IsValid fresh g {s} v =
    elim (Option-cases (find_row (same_key g) (grant_resolve_uuids g s).aces)) [
      | inl n ↦
          rw (n, grant_new)
            (insert_grant-IsValid fresh g (resolve-IsValid g v) (find_row-none (same_key g) _ n))
      | inr (a, y) ↦ rw (y, grant_new) (resolve-IsValid g v)
    ]

pub grant_delete-IsValid : (id : ℕ) {s : Store} → IsValid s → IsValid (grant_delete id s)
unfolding grant_delete delete_row
grant_delete-IsValid id {s} v = record {
  rows = delete_row-AreRows id s.aces v.rows;
  below = All-filter (λ a. a.id < s.next_id) _ s.aces v.below;
}

pub grant_update-IsValid :
    (id : ℕ) (g : Given) {s : Store} → IsValid s → IsValid (grant_update id g s).1
unfolding grant_update
grant_update-IsValid id g {s} v = elim (Bool-cases (clashes id g s.aces)) [
  | inl y ↦ rw y v
  | inr n ↦ rw n (
      let w = resolve-IsValid g v in
      record {
        rows = update_row-AreRows id g _ w.rows (rw ((resolve_keeps g s).0) n);
        below =
            update_row-All id g (λ a. a.id < (grant_resolve_uuids g s).next_id) (λ a l. l) _
              w.below;
      })
]

change_grant-IsValid :
    (id : ℕ) (o : Option Given) {s : Store} → IsValid s → IsValid (change_grant id o s).1
change_grant-IsValid id none v = unfold change_grant in (grant_delete-IsValid id v)
change_grant-IsValid id (some g) v = unfold change_grant in (grant_update-IsValid id g v)

run_grant-IsValid :
    (fresh : String) (uuid : Option String) (o : Option Given) (permitted : Option (String → Bool))
    {s : Store}
    → IsValid s
    → IsValid (run_grant fresh (record { uuid = uuid; grant = o; permitted = permitted }) s).1
unfolding run_grant
run_grant-IsValid fresh none none permitted v = v
run_grant-IsValid fresh none (some g) permitted v = grant_new-IsValid fresh g v
run_grant-IsValid fresh (some u) o permitted {s} v = on_found (grant_find u permitted s)
  where
    on_found :
        (f : Found)
        → IsValid
            (elim f as (λ _. Reply × Store) [
              | missing ↦ (reply 404 none, s)
              | forbidden ↦ (reply 403 none, s)
              | not_callable ↦ (throws, s)
              | found id ↦ change_grant id o s
            ]).1
    on_found missing = v
    on_found forbidden = v
    on_found not_callable = v
    on_found (found id) = change_grant-IsValid id o v

-- No request breaks the table's primary key or its two unique constraints, whatever it answers.
pub grant_request-IsValid :
    (fresh : String) (r : GrantRequest) (s : Store)
    → IsValid s
    → IsValid (grant_request fresh r s).1
unfolding grant_request
grant_request-IsValid fresh r s v = on_test (may_write r.grant r.permitted)
  where
    on_test :
        (o : Option Bool)
        → IsValid
            (elim o as (λ _. Reply × Store) [
              | none ↦ (throws, s)
              | some allowed ↦ if allowed then run_grant fresh r s else (reply 403 none, s)
            ]).1
    on_test none = v
    on_test (some true) = run_grant-IsValid fresh r.uuid r.grant r.permitted v
    on_test (some false) = v
