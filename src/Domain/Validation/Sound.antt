-- ===== src/Domain/Validation/Sound.antt =====
-- src/domain/validation.rs: which definitions are accepted.
use Prim.Native.String.{String, len}
use mathlib.Core.Option.{some-injective}
use mathlib.Core.Path.{subst}
use aegis_fs.Prelude.{
  ℕ, ◌≤◌, Bool, true, false, ◌||◌, Option, none, some, List, [], ◌∷◌, map, ltb, eqb, ◌≡◌, ◌≢◌, ◌↔◌,
  ◌⊎◌, refl, sym, arith, inl, inr, Elem, Bool-cases,
}
use aegis_fs.Prelude.BTree
use aegis_fs.Prelude.Eq.{◌==◌, string_eq, eq_iff, eq_refl}
use aegis_fs.Prelude.Float.{Float}
use aegis_fs.Prelude.Map.{contains_key}
use aegis_fs.Prelude.Names.{has, Distinct}
use aegis_fs.Prelude.Result.{Result, ok, err, ◌>>=◌, Result-cases}
use aegis_fs.Prelude.Text.{◌<>◌}
use aegis_fs.Domain.Dag.{NameSet}
use aegis_fs.Domain.Dag.Depends.{contains-insert}
use aegis_fs.Domain.Error.{DomainError, zero_timeout, invalid_definition}
use aegis_fs.Domain.RetryPolicy.{RetryPolicy, PolicyError, validate}
use aegis_fs.Domain.Workflow.{TaskSpec, HookSpec}
use aegis_fs.Domain.Validation.Conditions.{PolicyIsValid, policy_iff}
use aegis_fs.Domain.Validation.{
  guard, is_zero, host_check, scheme_check, as_definition, retry_checked, check_unique,
  validate_task_basics, check_tasks, Url, validate_webhook_url, hook_checked, check_hooks,
}

pub then-ok :
    {A : Type 0} (q : Result DomainError (Unit {0})) (r : Result DomainError A) (a : A)
    → ((q >>= λ _. r) ≡ ok a) ↔ ((q ≡ ok tt) × (r ≡ ok a))
then-ok (ok _) r a = (λ h. (refl, h), λ h. h.1)
then-ok (err e) r a = (λ h. absurd (cc), λ h. absurd (cc h.0))

pub guard-ok : (b : Bool) (e : DomainError) → (guard b e ≡ ok tt) ↔ (b ≡ false)
guard-ok b e = (λ h. ground arith, λ h. ground arith)

module _ (parse_url : String → Result String Url) where
  -- A hook without a URL, or with one that parses, of http or https, with a host.
  abbrev pub HookIsValid : HookSpec → Type 0
  HookIsValid h =
      (text : String)
      → h.webhook_url ≡ some text
      → (url : Url) × (parse_url text ≡ ok url)
        × ((host : String) × ((url.scheme ≡ "http") ⊎ (url.scheme ≡ "https"))
            × (url.host_str ≡ some host))

module _ {Json F64 : Type 0} where
  abbrev pub names : List (TaskSpec Json F64) → List String
  names tasks = map (λ t. t.name) tasks

  abbrev pub Fresh : NameSet → List (TaskSpec Json F64) → Type 0
  Fresh seen ts = (n : String) → has n (names ts) ≡ true → contains_key n seen ≡ false

  pub unique-Distinct :
      (seen : NameSet) (ts : List (TaskSpec Json F64))
      → check_unique seen ts ≡ ok tt
      → Fresh seen ts × Distinct (names ts)
  unfolding check_unique
  unique-Distinct seen [] h = (λ n m. absurd (cc), tt)
  unique-Distinct seen (t ∷ ts) h =
      let new : contains_key t.name seen ≡ false = ground (arith, h) in
      let (fresh, distinct) = unique-Distinct (BTree.insert t.name tt seen) ts (rw new at h) in
      (
        λ n m. (elim (Bool-cases (t.name == n)) [
          | inl e ↦ rw (← (eq_iff t.name n).0 e) new
          | inr e ↦
              let later = fresh n (rw e at m) in
              ground (arith, contains-insert t.name n seen, later)
        ]),
        (
          elim (Bool-cases (has t.name (names ts))) [
            | inr e ↦ e
            | inl e ↦
                let later = fresh t.name e in
                absurd (ground (arith, contains-insert t.name t.name seen, later, eq_refl t.name))
          ],
          distinct,
        ),
      )

  pub Distinct-unique :
      (seen : NameSet) (ts : List (TaskSpec Json F64))
      → Fresh seen ts
      → Distinct (names ts)
      → check_unique seen ts ≡ ok tt
  unfolding check_unique
  Distinct-unique seen [] f d = refl
  Distinct-unique seen (t ∷ ts) f (new, d) = rw (f t.name (ground (arith, eq_refl t.name))) (
      Distinct-unique (BTree.insert t.name tt seen) ts
        (λ n m.
          (let old = f n (ground (arith, m)) in
            ground (arith, contains-insert t.name n seen, eq_iff t.name n, old, new, m)))
        d)

zero_iff : (o : Option ℕ) → (is_zero o ≡ false) ↔ (o ≢ some 0)
zero_iff none = (λ h e. cc, λ h. refl)
zero_iff (some n) = (
  λ h e. ground (arith, e, h),
  λ h. elim (Bool-cases (eqb n 0)) [ inr e ↦ e | inl e ↦ absurd (h (ground (arith, e))) ],
)

host_iff : (o : Option String) → (host_check o ≡ ok tt) ↔ ((host : String) × (o ≡ some host))
host_iff none = (λ h. absurd (cc), λ h. absurd (let (host, e) = h in cc))
host_iff (some host) = (λ h. (host, refl), λ h. refl)

either : (s t u : String) → (s == t || s == u) ≡ true → (s ≡ t) ⊎ (s ≡ u)
either s t u h = ground (arith, h, eq_iff s t, eq_iff s u)

neither : (s t u : String) → (s == t || s == u) ≡ false → ¬ ((s ≡ t) ⊎ (s ≡ u))
neither s t u h c = ground (arith, h, c, eq_iff s t, eq_iff s u)

module _ (debug : String → String) (parse_url : String → Result String Url) where
  -- What a URL has to be.
  abbrev Good : Url → Type 0
  Good url =
      (host : String) × ((url.scheme ≡ "http") ⊎ (url.scheme ≡ "https"))
      × (url.host_str ≡ some host)

  scheme_iff : (url : Url) → (scheme_check debug parse_url url ≡ ok tt) ↔ Good url
  scheme_iff url = elim (Bool-cases (url.scheme == "http" || url.scheme == "https")) [
    | inl e ↦
        let (to, of) = host_iff url.host_str in
        let web = either url.scheme "http" "https" e in
        (λ h. (let (host, q) = to (rw e at h) in (host, web, q)), λ g. rw e (of (g.0, g.2)))
    | inr e ↦
        (λ h. absurd (ground (arith, h, e)), λ g. absurd (neither url.scheme "http" "https" e g.1))
  ]

  url_iff :
      (text : String)
      → (validate_webhook_url debug parse_url text ≡ ok tt)
        ↔ ((url : Url) × (parse_url text ≡ ok url) × Good url)
  url_iff text = elim (Result-cases (parse_url text)) [
    | inl (e, q) ↦ (λ h. absurd (ground (arith, h, q)), λ g. absurd (let same = g.1 in cc))
    | inr (url, q) ↦
        let (to, of) = scheme_iff url in
        (
          λ h. (url, q, to (rw q at h)),
          λ g. (let same : g.0 ≡ url = ground (arith, g.1, q) in rw q (of (subst Good same g.2))),
        )
  ]

  definition_iff : (r : Result String (Unit {0})) → (as_definition r ≡ ok tt) ↔ (r ≡ ok tt)
  definition_iff (ok _) = (λ h. refl, λ h. refl)
  definition_iff (err e) = (λ h. absurd (cc), λ h. absurd (cc))

  hooked_iff :
      (o : Option String)
      → (hook_checked debug parse_url o ≡ ok tt)
        ↔ ((text : String) → o ≡ some text → (url : Url) × (parse_url text ≡ ok url) × Good url)
  hooked_iff none = (λ h text e. absurd (cc), λ h. refl)
  hooked_iff (some u) =
      let (to, of) = url_iff u in
      let (to', of') = definition_iff (validate_webhook_url debug parse_url u) in
      (
        λ h text e.
            (let same : u ≡ text = cc in
              subst (λ t. (url : Url) × (parse_url t ≡ ok url) × Good url) same (to (to' h))),
        λ h. of' (of (h u refl)),
      )

  pub hooks_iff :
      (hs : List HookSpec)
      → (check_hooks debug parse_url hs ≡ ok tt)
        ↔ ((h : HookSpec) → Elem h hs → HookIsValid parse_url h)
  unfolding check_hooks
  hooks_iff [] = (λ h x m. absurd m, λ h. refl)
  hooks_iff (x ∷ xs) =
      let (to, of) =
        then-ok (hook_checked debug parse_url x.webhook_url) (check_hooks debug parse_url xs) tt in
      let (one, of_one) = hooked_iff x.webhook_url in
      let (rest, of_rest) = hooks_iff xs in
      (
        λ h y m. elim m [
          | inl e ↦ subst (HookIsValid parse_url) (sym e) (one (to h).0)
          | inr n ↦ rest (to h).1 y n
        ],
        λ h. of (of_one (h x (inl refl)), of_rest (λ y m. h y (inr m))),
      )

module _ (float : Float) (debug : String → String) (policy_text : PolicyError float.F64 → String)
    (parse_url : String → Result String Url) where
  open float use {F64}

  retry_iff :
      (o : Option (RetryPolicy F64))
      → (retry_checked float policy_text o ≡ ok tt)
        ↔ ((p : RetryPolicy F64) → o ≡ some p → PolicyIsValid float p)
  retry_iff none = (λ h p e. absurd (cc), λ h. refl)
  retry_iff (some q) = elim (Result-cases (validate float q)) [
    | inl (e, bad) ↦ (
      λ h p same. absurd (ground (arith, h, bad)),
      λ h. absurd (cc (bad, (policy_iff float q).1 (h q refl))),
    )
    | inr (_, good) ↦ (
      λ h p same.
          subst (PolicyIsValid float) (some-injective q p same) ((policy_iff float q).0 good),
      λ h. rw good refl,
    )
  ]

  module _ {Json : Type 0} where
    -- The conditions on a task.
    abbrev pub TaskIsValid : TaskSpec Json F64 → Type 0
    TaskIsValid t =
        (t.timeout_ms ≢ some 0)
        × (len t.name ≤ 64)
        × ((p : RetryPolicy F64) → t.retry ≡ some p → PolicyIsValid float p)

    task_iff :
        (t : TaskSpec Json F64)
        → (validate_task_basics float debug policy_text parse_url t ≡ ok tt) ↔ TaskIsValid t
    unfolding validate_task_basics
    task_iff t =
        let long =
          guard (ltb 64 (len t.name))
            (invalid_definition ("task name " <> debug t.name <> " exceeds 64 characters")) in
        let retry = retry_checked float policy_text t.retry in
        let (to, of) =
          then-ok (guard (is_zero t.timeout_ms) zero_timeout) (long >>= λ _. retry) tt in
        let (to', of') = then-ok long retry tt in
        let (zero_to, zero_of) = zero_iff t.timeout_ms in
        let (retry_to, retry_of) = retry_iff t.retry in
        let (clear_to, clear_of) = guard-ok (is_zero t.timeout_ms) zero_timeout in
        (
          λ h. (
            zero_to (clear_to (to h).0),
            (let short = (to' (to h).1).0 in ground (arith, short)),
            retry_to (to' (to h).1).1,
          ),
          λ v. of (clear_of (zero_of v.0), of' ((let short = v.1 in ground arith), retry_of v.2)),
        )

    pub tasks_iff :
        (ts : List (TaskSpec Json F64))
        → (check_tasks float debug policy_text parse_url ts ≡ ok tt)
          ↔ ((t : TaskSpec Json F64) → Elem t ts → TaskIsValid t)
    unfolding check_tasks
    tasks_iff [] = (λ h t m. absurd m, λ h. refl)
    tasks_iff (t ∷ ts) =
        let (to, of) =
          then-ok (validate_task_basics float debug policy_text parse_url t)
            (check_tasks float debug policy_text parse_url ts) tt in
        let (one, of_one) = task_iff t in
        let (rest, of_rest) = tasks_iff ts in
        (
          λ h u m. elim m [
            | inl e ↦ subst TaskIsValid (sym e) (one (to h).0)
            | inr n ↦ rest (to h).1 u n
          ],
          λ h. of (of_one (h t (inl refl)), of_rest (λ u m. h u (inr m))),
        )
