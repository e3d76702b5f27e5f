-- ===== src/Persistence/Filter/Page.antt =====
-- src/persistence/filter.rs: the page of runs that a query returns.
use aegis_fs.Prelude.{
  ℕ, zero, suc, ◌-◌, max, Option, none, some, List, [], ◌∷◌, ◌≡◌, refl, arith, take, drop,
}
use aegis_fs.Prelude.Sort.{sort_by}
use aegis_fs.Domain.Run.{Run}
use aegis_fs.Persistence.Filter.{RunFilter, push_until, apply_order, newest_first}

module _ {A : Type 0} where
  -- The first rows up to the limit, and at least one.
  abbrev pub first_rows : Option ℕ → List A → List A
  first_rows none xs = xs
  first_rows (some limit) xs = take (max 1 limit) xs

module _ {Json : Type 0} where
  push_until-none : (done : ℕ) (runs : List (Run Json)) → push_until done none runs ≡ runs
  unfolding push_until
  push_until-none done [] = refl
  push_until-none done (r ∷ runs) = ground (arith, push_until-none (suc done) runs)

  push_until-some :
      (n done limit : ℕ) (runs : List (Run Json))
      → n ≡ max 1 (limit - done)
      → push_until done (some limit) runs ≡ take n runs
  unfolding push_until
  push_until-some zero done limit runs h = absurd (omega arith)
  push_until-some (suc n) done limit [] h = refl
  push_until-some (suc zero) done limit (r ∷ runs) h = ground arith
  push_until-some (suc (suc n)) done limit (r ∷ runs) h =
      ground (arith, push_until-some (suc n) (suc done) limit runs)

  -- The page of a query is the runs in the order of `newest_first`, less the offset, up to the limit,
  -- where a limit of 0 counts as 1.
  pub apply_order_lem :
      (f : RunFilter) (runs : List (Run Json))
      → apply_order f runs ≡ first_rows f.limit (drop f.offset (sort_by newest_first runs))
  unfolding apply_order
  apply_order_lem f runs = by_limit f.limit (drop f.offset (sort_by newest_first runs))
    where
      by_limit :
          (limit : Option ℕ) (rows : List (Run Json))
          → push_until 0 limit rows ≡ first_rows limit rows
      by_limit none rows = push_until-none 0 rows
      by_limit (some limit) rows = push_until-some (max 1 limit) 0 limit rows (omega arith)
