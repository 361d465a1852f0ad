-- ===== src/Store/Queries/Counts.antt =====
-- The sizes of what the queries of internal/store/store.go return.
use herdr_bots.Base.{
  suc, ◌≡◌, refl, ap, ◌∙◌, Bool, List, [], ◌∷◌, length, filter_by, count_by, arith,
}
use herdr_bots.Store.State.{is_executing}
use herdr_bots.Store.Schema.{Run, Database}
use herdr_bots.Store.Queries.{insert_by, sort_by, executing_runs, accepted_before}

length-insert_by :
    (before : Run → Run → Bool) (r : Run) (rs : List Run)
    → length (insert_by before r rs) ≡ suc (length rs)
unfolding insert_by
length-insert_by before r [] = refl
length-insert_by before r (s ∷ ss) = ground (arith, length-insert_by before r ss)

length-sort_by :
    (before : Run → Run → Bool) (rs : List Run) → length (sort_by before rs) ≡ length rs
unfolding sort_by
length-sort_by before [] = refl
length-sort_by before (r ∷ rs) =
    length-insert_by before r (sort_by before rs) ∙ ap suc (length-sort_by before rs)

length-filter_by : (p : Run → Bool) (rs : List Run) → length (filter_by p rs) ≡ count_by p rs
unfolding filter_by count_by
length-filter_by p [] = refl
length-filter_by p (r ∷ rs) = ground (arith, length-filter_by p rs)

-- The active rows are all the rows that execute.
pub length-executing_runs :
    (d : Database) → length (executing_runs d) ≡ count_by (λ r. is_executing r.state) d.runs
unfolding executing_runs
length-executing_runs d =
    length-sort_by accepted_before (filter_by (λ r. is_executing r.state) d.runs)
    ∙ length-filter_by (λ r. is_executing r.state) d.runs
