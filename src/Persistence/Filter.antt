-- ===== src/Persistence/Filter.antt =====
-- src/persistence/filter.rs: the query predicates on runs and the order of their results.
pub mod Page
use aegis_fs.Prelude.{
  ℕ, zero, suc, String, Bool, true, false, not, ◌&&◌, ◌||◌, Option, none, some, List, [], ◌∷◌, any,
  all, drop, leb, if◌then◌else◌,
}
use text.Mathlib.Text.{starts_with}
use aegis_fs.Prelude.Eq.{◌==◌, string_eq}
use aegis_fs.Prelude.Int.{ℤ, leb_ℤ, ltb_ℤ, saturating_sub}
use aegis_fs.Prelude.Map.{Map, lookup, contains_key}
use aegis_fs.Prelude.Sort.{sort_by}
use aegis_fs.Domain.Run.{Run}
use aegis_fs.Domain.RunStatus
use aegis_fs.Domain.RunStatus.{RunStatus}

pub record RunFilter : Type 0 where
  pub name : Option String
  pub name_prefix : Option String
  pub status : Option RunStatus
  pub status_in : List RunStatus
  pub tenant : Option String
  pub tags : Map String String
  pub has_tag_keys : List String
  pub from_ms : Option ℤ
  pub to_ms : Option ℤ
  pub finished_from_ms : Option ℤ
  pub finished_to_ms : Option ℤ
  pub min_duration_ms : Option ℤ
  pub limit : Option ℕ
  pub offset : ℕ

abbrev pub default_filter : RunFilter
default_filter = record {
  name = none;
  name_prefix = none;
  status = none;
  status_in = [];
  tenant = none;
  tags = [];
  has_tag_keys = [];
  from_ms = none;
  to_ms = none;
  finished_from_ms = none;
  finished_to_ms = none;
  min_duration_ms = none;
  limit = none;
  offset = 0;
}

-- A dimension that is not set lets every run pass.
abbrev pub when_set {ℓ} : {A : Type ℓ} → Option A → (A → Bool) → Bool
when_set none test = true
when_set (some a) test = test a

abbrev is_empty {ℓ} : {A : Type ℓ} → List A → Bool
is_empty [] = true
is_empty (_ ∷ _) = false

abbrev has_value : String → Option String → Bool
has_value value none = false
has_value value (some v) = v == value

-- The time, when there is one, passes the test.
abbrev pub finished_and : Option ℤ → (ℤ → Bool) → Bool
finished_and none test = false
finished_and (some t) test = test t

abbrev pub lasts : Option ℤ → Option ℤ → ℤ → Bool
lasts (some s) (some f) min_dur = leb_ℤ min_dur (saturating_sub f s)
lasts (some s) none min_dur = false
lasts none f min_dur = false

module _ {Json : Type 0} where
  -- The chain of early returns, one conjunct for each.
  unfoldable pub matches : RunFilter → Run Json → Bool
  matches f run =
      when_set f.name (λ name. run.def_name == name)
      && when_set f.name_prefix (λ prefix. starts_with run.def_name prefix)
      && when_set f.status (λ status. RunStatus.eq run.status status)
      && (is_empty f.status_in || any (RunStatus.eq run.status) f.status_in)
      && when_set f.tenant (λ tenant. run.tenant == tenant)
      && all (λ tag. has_value tag.1 (lookup tag.0 run.tags)) f.tags
      && all (λ key. contains_key key run.tags) f.has_tag_keys
      && when_set f.from_ms (λ from. leb_ℤ from run.created_at_ms)
      && when_set f.to_ms (λ to. ltb_ℤ run.created_at_ms to)
      && when_set f.finished_from_ms (λ from. finished_and run.finished_at_ms (leb_ℤ from))
      && when_set f.finished_to_ms (λ to. finished_and run.finished_at_ms (λ t. leb_ℤ t to))
      && when_set f.min_duration_ms (λ d. lasts run.started_at_ms run.finished_at_ms d)

  -- The loop pushes a run before it looks at the limit, so a limit of 0 returns one run.
  unfoldable pub push_until : ℕ → Option ℕ → List (Run Json) → List (Run Json)
  push_until done limit [] = []
  push_until done none (r ∷ runs) = r ∷ push_until (suc done) none runs
  push_until done (some limit) (r ∷ runs) =
      let rest = push_until (suc done) (some limit) runs in
      r ∷ (if leb limit (suc done) then [] else rest)

  abbrev pub newest_first : Run Json → Run Json → Bool
  newest_first a b = leb_ℤ b.created_at_ms a.created_at_ms

  unfoldable pub apply_order : RunFilter → List (Run Json) → List (Run Json)
  unfolding push_until sort_by
  apply_order f runs = push_until 0 f.limit (drop f.offset (sort_by newest_first runs))
