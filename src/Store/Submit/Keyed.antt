-- ===== src/Store/Submit/Keyed.antt =====
-- What a keyed submit leaves behind.
use cairnq.Prelude.{
  ℕ, true, false, ◌≡◌, refl, sym, subst, ◌∙◌, ◌⊎◌, some, List, [], ◌∷◌, ◌++◌, Text, arith, elem,
  Bool-cases, inl, inr, ◌==◌, ==_refl, find?, Option-cases,
}
use cairnq.Models.{Task}
use cairnq.Errors.{Result, ok, raise, integrity_error, Codec, ◌>>=◌}
use cairnq.Table.{ids}
use cairnq.Rows.{NewTask, new_row}
use cairnq.Db
use cairnq.Db.{Db, lookup, put_key}
use cairnq.Store.Submit.{
  SubmitArgs, Conflict, is_reject, reusable, insert_keyed, resolve_conflict, existing, keyed_submit,
  write_task, prepare, submit, transact,
}

lookup-put_key :
    (key id : Text) (ks : List (Text × Text)) → lookup key (put_key key id ks) ≡ some id
lookup-put_key key id [] = ground (arith, ==_refl key)
lookup-put_key key id ((k, j) ∷ ks) = ground (arith, lookup-put_key key id ks)

find?-fresh :
    (id : Text) (ts : List Task) (t : Task)
    → elem id (ids ts) ≡ false
    → t.id ≡ id
    → find? (λ u. u.id == id) (ts ++ t ∷ []) ≡ some t
find?-fresh id [] t h e = ground arith
find?-fresh id (u ∷ us) t h e = ground (arith, find?-fresh id us t)

elem_last : (ts : List Task) (t : Task) → elem t.id (ids (ts ++ t ∷ [])) ≡ true
elem_last [] t = ground (arith, ==_refl t.id)
elem_last (u ∷ us) t = ground (arith, elem_last us t)

-- The database after a task was inserted and its key pointed at it.
abbrev pub inserted : ℕ → Text → NewTask → Db → Db
inserted now key n db = record {
  tasks = db.tasks ++ new_row now n ∷ [];
  keys = put_key key n.id db.keys;
}

module _ (now : ℕ) (key : Text) (n : NewTask) (db : Db) where
  insert_keyed-fresh :
      elem n.id (ids db.tasks) ≡ false
      → insert_keyed now key n db ≡ ok (new_row now n, inserted now key n db)
  unfolding insert_keyed Db.insert_task Db.upsert_key new_row
  insert_keyed-fresh e = rw e (rw (elem_last db.tasks (new_row now n)) refl)

  insert_keyed-taken :
      elem n.id (ids db.tasks) ≡ true → insert_keyed now key n db ≡ raise integrity_error
  unfolding insert_keyed Db.insert_task
  insert_keyed-taken e = rw e refl

  inserted-get_by_key :
      elem n.id (ids db.tasks) ≡ false
      → Db.get_by_key key (inserted now key n db) ≡ some (new_row now n)
  unfolding Db.get_by_key Db.get_key Db.get new_row
  inserted-get_by_key e =
      rw (lookup-put_key key n.id db.keys, Db.get_by_key)
        (find?-fresh n.id db.tasks (new_row now n) e refl)

  -- An insert under a key either meets a taken id, or leaves the key pointing at the new task.
  pub insert_keyed_cases :
      (insert_keyed now key n db ≡ raise integrity_error)
      ⊎ ((insert_keyed now key n db ≡ ok (new_row now n, inserted now key n db))
          × (Db.get_by_key key (inserted now key n db) ≡ some (new_row now n)))
  insert_keyed_cases = elim (Bool-cases (elem n.id (ids db.tasks))) [
    | inl e ↦ inl (insert_keyed-taken e)
    | inr e ↦ inr (insert_keyed-fresh e, inserted-get_by_key e)
  ]

-- A result whose task is what the key points at afterwards.
abbrev IsPointed : Text → Result (Task × Db) → Type 0
IsPointed key (ok (t, db')) = Db.get_by_key key db' ≡ some t
IsPointed key (raise e) = Unit {0}

insert_keyed-IsPointed :
    (now : ℕ) (key : Text) (n : NewTask) (db : Db) → IsPointed key (insert_keyed now key n db)
insert_keyed-IsPointed now key n db = elim (insert_keyed_cases now key n db) [
  | inl e ↦ rw e tt
  | inr (e, found) ↦ rw e found
]

resolve_conflict-IsPointed :
    (now : ℕ) (key : Text) (conflict : Conflict) (n : NewTask) (t : Task) (db : Db)
    → Db.get_by_key key db ≡ some t
    → IsPointed key (resolve_conflict now key conflict n t db)
unfolding resolve_conflict
resolve_conflict-IsPointed now key conflict n t db found = elim (Bool-cases (is_reject conflict)) [
  | inl e ↦ rw e tt
  | inr e ↦ rw e (elim (Bool-cases (reusable conflict t.status)) [
    | inl q ↦ rw q found
    | inr q ↦ rw q (insert_keyed-IsPointed now key n _)
  ])
]

existing-get_by_key : (key : Text) (db : Db) → existing key db ≡ Db.get_by_key key db
unfolding existing Db.get_by_key
existing-get_by_key key db = refl

keyed_submit-IsPointed :
    (now : ℕ) (key : Text) (conflict : Conflict) (n : NewTask) (db : Db)
    → IsPointed key (keyed_submit now key conflict n db)
unfolding keyed_submit
keyed_submit-IsPointed now key conflict n db = elim (Option-cases (existing key db)) [
  | inl e ↦ rw (e, keyed_submit) (insert_keyed-IsPointed now key n db)
  | inr (t, e) ↦
      rw (e, keyed_submit)
        (resolve_conflict-IsPointed now key conflict n t db (sym (existing-get_by_key key db) ∙ e))
]

transact-IsPointed :
    (key : Text) (r : Result (Task × Db)) (db : Db) (t : Task)
    → IsPointed key r
    → (transact r db).0 ≡ ok t
    → Db.get_by_key key (transact r db).1 ≡ some t
transact-IsPointed key (ok (u, db')) db t h e = let same : u ≡ t = cc in rw (← same) h
transact-IsPointed key (raise x) db t h e = cc

bind-IsPointed :
    (key : Text) (m : Result NewTask) (f : NewTask → Result (Task × Db))
    → ((n : NewTask) → IsPointed key (f n))
    → IsPointed key (m >>= f)
bind-IsPointed key (ok n) f h = h n
bind-IsPointed key (raise e) f h = tt

write_task-keyed :
    (now : ℕ) (key : Text) (a : SubmitArgs) (n : NewTask) (db : Db)
    → a.key ≡ some key
    → write_task now a n db ≡ keyed_submit now key a.conflict n db
unfolding write_task
write_task-keyed now key a n db e = ground arith

-- A keyed submit that returns a task, on whatever branch, leaves the key pointing at that task: a
-- lookup by the key finds the row that the submit returned.
pub submit-get_by_key :
    (c : Codec) (admit : Result (Unit {0})) (now : ℕ) (task_id key : Text) (a : SubmitArgs)
    (db : Db) (t : Task)
    → a.key ≡ some key
    → (submit c admit now task_id a db).0 ≡ ok t
    → Db.get_by_key key (submit c admit now task_id a db).1 ≡ some t
unfolding submit
submit-get_by_key c admit now task_id key a db t e h =
    transact-IsPointed key _ db t
      (bind-IsPointed key (prepare c admit task_id a) _ (λ n.
        subst (IsPointed key) (sym (write_task-keyed now key a n db e))
          (keyed_submit-IsPointed now key a.conflict n db)))
      h
