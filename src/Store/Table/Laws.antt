-- ===== src/Store/Table/Laws.antt =====
-- Laws of the tables: what is read after a row is replaced or inserted.
use herdr_bots.Base.{
  count_by, ◌+◌, ℕ, refl, ok, String, Bool, true, false, ◌≡◌, ap, ◌∙◌, ◌⊎◌, inl, inr, List, [], ◌∷◌,
  some, ◌==◌, eq_iff, Bool-cases, Option, none, Option-cases, if◌then◌else◌, arith,
}
use herdr_bots.Store.Schema.{Run, Database}
use herdr_bots.Store.Table.{
  update_logged, found, find_run, replace_run, get_run, put_run, insert_event, update_found,
  update_run,
}

find_run-id : (id : String) (rs : List Run) (r : Run) → find_run id rs ≡ some r → r.id ≡ id
unfolding find_run
find_run-id id [] r h = ground arith
find_run-id id (x ∷ rs) r h = ground (arith, eq_iff x.id id, find_run-id id rs r)

-- The row that is found has the id.
pub get_run-id : (id : String) (d : Database) (r : Run) → get_run id d ≡ some r → r.id ≡ id
unfolding get_run
get_run-id id d r h = find_run-id id d.runs r h

pub get_run_self :
    (id : String) (d : Database) (r : Run) → get_run id d ≡ some r → get_run r.id d ≡ some r
get_run_self id d r h = ap (λ k. get_run k d) (get_run-id id d r h) ∙ h

find_run-replace_run :
    (k : String) (r s : Run) (rs : List Run)
    → find_run s.id rs ≡ some r
    → find_run k (replace_run s rs) ≡ (if s.id == k then some s else find_run k rs)
unfolding find_run replace_run
find_run-replace_run k r s [] h = ground arith
find_run-replace_run k r s (x ∷ rs) h =
    ground (arith, eq_iff x.id s.id, eq_iff x.id k, eq_iff s.id k, find_run-replace_run k r s rs)

-- A row that exists is replaced, and no other row is touched.
pub get_run-put_run :
    (k : String) (r s : Run) (d : Database)
    → get_run s.id d ≡ some r
    → get_run k (put_run s d) ≡ (if s.id == k then some s else get_run k d)
unfolding get_run put_run
get_run-put_run k r s d h = find_run-replace_run k r s d.runs h

-- A row depends on the runs alone.
pub get_run-runs : (k : String) (d d' : Database) → d.runs ≡ d'.runs → get_run k d ≡ get_run k d'
unfolding get_run
get_run-runs k d d' e = ap (find_run k) e

-- An UPDATE by id either changes nothing, or changes the one row that passes the guard.
abbrev pub UpdateCases : String → (Run → Bool) → (Run → Run) → Database → Type 0
UpdateCases id guard f d =
    (update_run id guard f d ≡ (false, d))
    ⊎ ((r : Run) × (get_run id d ≡ some r)
        × (guard r ≡ true)
        × (update_run id guard f d ≡ (true, put_run (f r) d)))

pub update_run_cases :
    (id : String) (guard : Run → Bool) (f : Run → Run) (d : Database) → UpdateCases id guard f d
unfolding update_run
update_run_cases id guard f d = elim (Option-cases (get_run id d)) [
  | inl e ↦ inl (rw (e, update_found))
  | inr (r, e) ↦ elim (Bool-cases (guard r)) [
    | inl g ↦ inr (r, e, g, rw (e, update_found) (rw g))
    | inr g ↦ inl (rw (e, update_found) (rw g))
  ]
]

-- The row that an UPDATE changed, where the change keeps its id.
pub get_run-changed :
    (id : String) (d : Database) (r s : Run)
    → get_run id d ≡ some r
    → s.id ≡ r.id
    → get_run id (put_run s d) ≡ some s
get_run-changed id d r s h i =
    let j : s.id ≡ id = i ∙ get_run-id id d r h in
    let same : (s.id == id) ≡ true = ground (arith, eq_iff s.id id) in
    get_run-put_run id r s d (ap (λ k. get_run k d) j ∙ h)
    ∙ ap (λ b. if b then some s else get_run id d) same

-- An event stands beside the rows.
pub get_run-logged :
    (id : String) (d : Database) (r s : Run) (run_id from to : String) (at : ℕ)
    (code detail : String)
    → get_run id d ≡ some r
    → s.id ≡ r.id
    → get_run id (insert_event run_id from to at code detail (put_run s d)) ≡ some s
unfolding insert_event
get_run-logged id d r s run_id from to at code detail h i =
    get_run-runs id _ (put_run s d) refl ∙ get_run-changed id d r s h i

-- Only a transaction that hit its row answers true.
pub missed : {X : Type 0} → ok false ≡ ok true → X
missed h = cc

-- `Scan` reads what is there.
pub found_ok : {A : Type 0} (o : Option A) (a : A) → found o ≡ ok a → o ≡ some a
found_ok none a h = cc
found_ok (some x) a h = cc

-- How many rows pass a test, after one of them is replaced.
count_by-replace_run :
    (p : Run → Bool) (r s : Run) (rs : List Run)
    → find_run s.id rs ≡ some r
    → count_by p (replace_run s rs) + (if p r then 1 else 0)
      ≡ count_by p rs + (if p s then 1 else 0)
unfolding count_by find_run replace_run
count_by-replace_run p r s [] h = ground arith
count_by-replace_run p r s (x ∷ rs) h = ground (arith, count_by-replace_run p r s rs)

pub count_by-put_run :
    (p : Run → Bool) (r s : Run) (d : Database)
    → get_run s.id d ≡ some r
    → count_by p (put_run s d).runs + (if p r then 1 else 0)
      ≡ count_by p d.runs + (if p s then 1 else 0)
unfolding get_run put_run
count_by-put_run p r s d h = count_by-replace_run p r s d.runs h

-- An UPDATE whose row passes its guard.
pub update_logged_hit :
    (id : String) (guard : Run → Bool) (f : Run → Run) (from to : String) (at : ℕ)
    (code detail : String) (d : Database) (r : Run)
    → get_run id d ≡ some r
    → guard r ≡ true
    → update_logged id guard f from to at code detail d
      ≡ (true, insert_event id from to at code detail (put_run (f r) d))
unfolding update_logged update_run
update_logged_hit id guard f from to at code detail d r h g = rw (h, update_found) (rw g refl)
