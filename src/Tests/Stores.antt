-- ===== src/Tests/Stores.antt =====
-- A Redis server and a jobs table in memory, which keep the laws.
use samanager_backend.Base.{
  ◌≡◌, ◌⊎◌, refl, ap, inl, inr, String, Bool, true, false, List, [], ◌∷◌, ◌++◌, Option, none, some,
  redis_nil, failure, external, Reply, ok, err, str_eq, eq_iff, if◌then◌else◌, Option-cases,
  Bool-cases, arith, All,
}
use samanager_backend.Cache.Redis.{Redis, IsLawful}
use samanager_backend.Cache.Queue.Liveness.{IsAvailable}
use samanager_backend.Domain.Job.{DbJob, DbJobStatus, queuing, completed, failed}
use samanager_backend.Jobs.Database.{
  Database, IsLawful as IsLawfulTable, Updates, Columns, updated, or_old,
}

pub record Memory : Type 0 where
  pub values : String → Option String
  pub lists : String → List String
  pub names : List String

pub str_eq_refl : (k : String) → str_eq k k ≡ true
str_eq_refl k = (eq_iff k k).1 refl

abbrev pub last_of : List String → Option (List String × String)
last_of [] = none
last_of (x ∷ xs) = elim (last_of xs) [ none ↦ some ([], x) | some (ys, v) ↦ some (x ∷ ys, v) ]

last_of-none : (xs : List String) → last_of xs ≡ none → xs ≡ []
last_of-none [] h = refl
last_of-none (x ∷ xs) h = elim (Option-cases (last_of xs)) [
  | inl e ↦ cc (rw (e, last_of) at h)
  | inr (p, e) ↦ cc (rw (e, last_of) at h)
]

pub last_of-eq : (xs ys : List String) (v : String) → last_of xs ≡ some (ys, v) → xs ≡ ys ++ v ∷ []
last_of-eq [] ys v h = cc
last_of-eq (x ∷ xs) ys v h = elim (Option-cases (last_of xs)) [
  | inl e ↦
      let none_left : xs ≡ [] = last_of-none xs e in
      let at_end : some ([], x) ≡ some (ys, v) = rw (e, last_of) at h in
      let ys_eq : [] ≡ ys = cc in let v_eq : x ≡ v = cc in rw (none_left, ← ys_eq, ← v_eq) refl
  | inr ((zs, w), e) ↦
      let longer : some (x ∷ zs, w) ≡ some (ys, v) = rw (e, last_of) at h in
      let ys_eq : x ∷ zs ≡ ys = cc in
      let v_eq : w ≡ v = cc in rw (← ys_eq, ← v_eq) (ap (◌∷◌ x) (last_of-eq xs zs w e))
]

abbrev read : Option String → Reply String
read none = err redis_nil
read (some v) = ok v

abbrev popped : String → Memory → Option (List String × String) → Reply String × Memory
popped q s none = (err redis_nil, s)
popped q s (some (rest, v)) =
    (ok v, record s { lists = λ k. if str_eq q k then rest else s.lists k })

pub read_ok : (o : Option String) (v : String) → read o ≡ ok v → o ≡ some v
read_ok none v h = cc
read_ok (some w) v h = cc

pub read_nil : (o : Option String) → read o ≡ err redis_nil → o ≡ none
read_nil none h = refl
read_nil (some w) h = cc

pub popped_held :
    (q : String) (s : Memory) (o : Option (List String × String)) (j : String)
    → (popped q s o).1.values j ≡ s.values j
popped_held q s none j = refl
popped_held q s (some (rest, v)) j = refl

pub popped_ok :
    (q : String) (s : Memory) (v : String) (o : Option (List String × String))
    → ((ys : List String) (w : String) → o ≡ some (ys, w) → s.lists q ≡ ys ++ w ∷ [])
    → (popped q s o).0 ≡ ok v
    → s.lists q ≡ (popped q s o).1.lists q ++ v ∷ []
popped_ok q s v none all h = cc
popped_ok q s v (some (rest, w)) all h =
    let same : w ≡ v = cc in rw (str_eq_refl q, ← same) (all rest w refl)

-- A name is listed once.
abbrev pub with_name : String → List String → List String
with_name k [] = k ∷ []
with_name k (x ∷ xs) = if str_eq k x then x ∷ xs else x ∷ with_name k xs

abbrev pub memory : Redis
memory = record {
  State = Memory;
  get = λ k s. (read (s.values k), s);
  set = λ k v ttl s. (
    ok tt,
    record s {
      values = λ j. if str_eq k j then some v else s.values j;
      names = with_name k s.names;
    },
  );
  del = λ k s. (ok tt, record s { values = λ j. if str_eq k j then none else s.values j });
  keys = λ p s. (ok s.names, s);
  lpush =
      λ q v s. (ok tt, record s { lists = λ k. if str_eq q k then v ∷ s.lists q else s.lists k });
  brpop = λ t q s. popped q s (last_of (s.lists q));
}

unfoldable pub memory-IsLawful : IsLawful memory
memory-IsLawful = record {
  held = λ s k. s.values k;
  items = λ s q. s.lists q;
  get_ok = λ k v s. read_ok (s.values k) v;
  get_nil = λ k s. read_nil (s.values k);
  get_held = λ k j s. refl;
  set_ok = λ k v ttl s done. rw (str_eq_refl k) refl;
  set_or_not = λ k v ttl s. inl (rw (str_eq_refl k) refl);
  set_other = λ k v ttl s j ne. rw ne refl;
  del_ok = λ k s done. rw (str_eq_refl k) refl;
  del_other = λ k s j ne. rw ne refl;
  keys_held = λ p j s. refl;
  lpush_held = λ q v j s. refl;
  brpop_held = λ t q j s. popped_held q s (last_of (s.lists q)) j;
  lpush_ok = λ q v s done. rw (str_eq_refl q) refl;
  brpop_ok = λ t q v s done. popped_ok q s v (last_of (s.lists q)) (last_of-eq (s.lists q)) done;
}

-- A jobs table, as a function.
abbrev pub row_or_missing : Option DbJob → Reply DbJob
row_or_missing none = err (failure "record not found")
row_or_missing (some row) = ok row

abbrev pub set_row : Updates → Option DbJob → Option DbJob
set_row u none = none
set_row u (some row) =
    some (record row { status = u.status; err_msg = or_old u.err_msg row.err_msg })

abbrev pub columns : Option DbJob → Option Columns
columns none = none
columns (some row) = some (record { status = row.status; err_msg = row.err_msg })

abbrev pub same_db_status : DbJobStatus → DbJobStatus → Bool
same_db_status queuing queuing = true
same_db_status completed completed = true
same_db_status failed failed = true
same_db_status _ _ = false

same_db_status_sound : (a b : DbJobStatus) → same_db_status a b ≡ true → a ≡ b
same_db_status_sound a b h = ground arith

abbrev pub with_status_of : DbJobStatus → Option DbJob → List DbJob
with_status_of status none = []
with_status_of status (some row) =
    if same_db_status row.status status then (record row { id = "a" }) ∷ [] else []

with_status_of-All :
    (status : DbJobStatus) (o : Option DbJob)
    → All (λ j. j.status ≡ status) (with_status_of status o)
with_status_of-All status none = tt
with_status_of-All status (some row) = elim (Bool-cases (same_db_status row.status status)) [
  | inl e ↦ rw e (same_db_status_sound row.status status e, tt)
  | inr e ↦ rw e tt
]

pub listed :
    (status : DbJobStatus) (o : Option DbJob) (jobs : List DbJob)
    → ok (with_status_of status o) ≡ ok jobs
    → All (λ j. j.status ≡ status) jobs
listed status o jobs e =
    let same : with_status_of status o ≡ jobs = cc in rw (← same) (with_status_of-All status o)

with_status_of-listed :
    (status : DbJobStatus) (o : Option DbJob)
    → All
        (λ (j : DbJob).
          (j.id ≡ "a") × (columns o ≡ some (record { status = j.status; err_msg = j.err_msg })))
        (with_status_of status o)
with_status_of-listed status none = tt
with_status_of-listed status (some row) = elim (Bool-cases (same_db_status row.status status)) [
  | inl e ↦ rw e ((refl, refl), tt)
  | inr e ↦ rw e tt
]

All-at_a :
    (s : String → Option DbJob) (jobs : List DbJob)
    → All
        (λ (j : DbJob).
          (j.id ≡ "a")
          × (columns (s "a") ≡ some (record { status = j.status; err_msg = j.err_msg })))
        jobs
    → All
        (λ (j : DbJob). columns (s j.id) ≡ some (record { status = j.status; err_msg = j.err_msg }))
        jobs
All-at_a s [] all = tt
All-at_a s (j ∷ js) ((at_a, e), all) = (rw at_a e, All-at_a s js all)

pub listed_rows :
    (status : DbJobStatus) (s : String → Option DbJob) (jobs : List DbJob)
    → ok (with_status_of status (s "a")) ≡ ok jobs
    → All
        (λ (j : DbJob). columns (s j.id) ≡ some (record { status = j.status; err_msg = j.err_msg }))
        jobs
listed_rows status s jobs e =
    let same : with_status_of status (s "a") ≡ jobs = cc in
    rw (← same) (All-at_a s (with_status_of status (s "a")) (with_status_of-listed status (s "a")))

pub columns-set_row :
    (u : Updates) (o : Option DbJob) → columns (set_row u o) ≡ updated u (columns o)
columns-set_row u none = refl
columns-set_row u (some row) = refl

-- A new row has the id "new"; there is one such row at most.
abbrev pub create_new :
    DbJob → (String → Option DbJob) → Option DbJob → Reply DbJob × (String → Option DbJob)
create_new row s (some taken) = (err (external "duplicate key"), s)
create_new row s none = (
  ok (record row { id = "new"; created_at = 100; updated_at = 100 }),
  λ id.
      if str_eq "new" id
      then some (record row { id = "new"; created_at = 100; updated_at = 100 })
      else s id,
)

-- It lists the row of the id "a" alone.
abbrev pub table : Database
table = record {
  State = String → Option DbJob;
  create = λ row s. create_new row s (s "new");
  find = λ s. (ok [], s);
  find_with_status = λ status s. (ok (with_status_of status (s "a")), s);
  first_with_id = λ id s. (row_or_missing (s id), s);
  update_with_id = λ id u s. (ok tt, λ j. if str_eq id j then set_row u (s id) else s j);
}

pub create_new_ok :
    (given : DbJob) (s : String → Option DbJob) (o : Option DbJob)
    → s "new" ≡ o
    → (made : DbJob) → (create_new given s o).0 ≡ ok made
    → (made
        ≡ record given { id = made.id; created_at = made.created_at; updated_at = made.updated_at })
      × (columns (s made.id) ≡ none)
      × (columns ((create_new given s o).1 made.id)
          ≡ some (record { status = given.status; err_msg = given.err_msg }))
create_new_ok given s (some taken) there made e = cc
create_new_ok given s none there made e =
    let same : record given { id = "new"; created_at = 100; updated_at = 100 } ≡ made = cc in
    rw (← same) (refl, ap columns there, refl)

pub create_new_row :
    (given : DbJob) (s : String → Option DbJob) (o : Option DbJob)
    → s "new" ≡ o
    → (id : String)
    → (columns ((create_new given s o).1 id) ≡ columns (s id))
      ⊎ ((columns (s id) ≡ none)
          × (columns ((create_new given s o).1 id)
              ≡ some (record { status = given.status; err_msg = given.err_msg })))
create_new_row given s (some taken) there id = inl refl
create_new_row given s none there id = elim (Bool-cases (str_eq "new" id)) [
  | inl same ↦
      inr (rw (← (eq_iff "new" id).0 same) (ap columns there), rw (← (eq_iff "new" id).0 same) refl)
  | inr differ ↦ inl (rw differ refl)
]

unfoldable pub table-IsLawful : IsLawfulTable table
table-IsLawful = record {
  row = λ s id. columns (s id);
  find_with_status_ok = λ status s jobs e. listed status (s "a") jobs e;
  find_with_status_listed = λ status s jobs e. listed_rows status s jobs e;
  find_with_status_row = λ status s id. refl;
  find_row = λ s id. refl;
  first_row = λ wanted s id. refl;
  create_ok = λ given s made e. create_new_ok given s (s "new") refl made e;
  create_row = λ given s id. create_new_row given s (s "new") refl id;
  update_row = λ id u s. inr (rw (str_eq_refl id) (columns-set_row u (s id)));
  update_ok = λ id u s done. rw (str_eq_refl id) (columns-set_row u (s id));
  update_other = λ id u s j ne. rw ne refl;
}

last_of-append : (ys : List String) (v : String) → last_of (ys ++ v ∷ []) ≡ some (ys, v)
last_of-append [] v = refl
last_of-append (y ∷ ys) v = rw (last_of-append ys v) refl

pub memory-IsAvailable : (q : String) → IsAvailable memory memory-IsLawful q
unfolding memory-IsLawful
memory-IsAvailable q = record {
  pushed = λ v s. refl;
  popped = λ t s rest v e. rw (e, last_of-append rest v) refl;
}
