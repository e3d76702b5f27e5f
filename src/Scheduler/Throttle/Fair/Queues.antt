-- ===== src/Scheduler/Throttle/Fair/Queues.antt =====
-- src/scheduler/throttle.rs: the queues of the tenants under a push and a pop.
use aegis_fs.Prelude.{
  String, Bool, true, false, Option, none, some, List, [], ◌∷◌, ◌++◌, ◌≡◌, refl, arith, ap, sym,
  ◌∙◌, if◌then◌else◌,
}
use mathlib.Core.Path.{subst}
use aegis_fs.Prelude.BTree
use aegis_fs.Prelude.BTree.{lookup-insert}
use aegis_fs.Prelude.Eq.{string_eq, ◌==◌, eq_iff, eq_refl}
use aegis_fs.Prelude.Map.{Map, lookup, contains_key, is_some, remove, lookup-remove}
use aegis_fs.Prelude.Names.{has, has-append, Distinct, Distinct-append}
use aegis_fs.Domain.Workflow.{unwrap_or}
use aegis_fs.Scheduler.Throttle.Fair.{FairShare, push, pop, pop_rounds, serve}

module _ {T : Type 0} where
  -- What is queued for a tenant.
  abbrev pub waiting : String → FairShare T → List T
  waiting t d = unwrap_or (lookup t d.queues) []

  abbrev pub filled : List T → Bool
  filled [] = false
  filled (_ ∷ _) = true

  -- The order is of the tenants with queues, each once, and no queue is empty.
  pub record IsFair (d : FairShare T) : Type 0 where
    pub distinct : Distinct d.tenant_order
    pub same : (t : String) → contains_key t d.queues ≡ has t d.tenant_order
    pub full : (t : String) (q : List T) → lookup t d.queues ≡ some q → filled q ≡ true

  filled-append : (q : List T) (x : T) → filled (q ++ (x ∷ [])) ≡ true
  filled-append [] x = refl
  filled-append (y ∷ q) x = refl

  pub push-IsFair : (t : String) (x : T) (d : FairShare T) → IsFair d → IsFair (push t x d)
  unfolding push
  push-IsFair t x d v =
      let q = unwrap_or (lookup t d.queues) [] ++ (x ∷ []) in
      record {
        distinct = ground (arith, v.distinct, v.same t, Distinct-append t d.tenant_order);
        same = λ u.
            ap is_some (lookup-insert t u q d.queues)
            ∙ ground (arith, v.same u, v.same t, has-append u d.tenant_order (t ∷ []), eq_iff t u);
        full = λ u r h. ground (
          arith,
          h,
          v.full u r,
          lookup-insert t u q d.queues,
          filled-append (unwrap_or (lookup t d.queues) []) x,
        );
      }

  -- The state after the turn of the tenant `t`, with `q` left.
  abbrev left_over : String → List T → List String → Map String (List T) → FairShare T
  left_over t [] order queues = record { queues = remove t queues; tenant_order = order }
  left_over t (x ∷ q) order queues = record {
    queues = BTree.insert t (x ∷ q) queues;
    tenant_order = order ++ (t ∷ []);
  }

  serve-some :
      (t : String) (x : T) (q : List T) (order : List String) (d : FairShare T)
      → serve t (some (x ∷ q)) (record d { tenant_order = order })
        ≡ some ((t, x), left_over t q order d.queues)
  serve-some t x [] order d = refl
  serve-some t x (y ∷ q) order d = refl

  first_full :
      (t : String) (order : List String) (d : FairShare T)
      → IsFair d
      → d.tenant_order ≡ t ∷ order
      → (x : T) × (q : List T) × (lookup t d.queues ≡ some (x ∷ q))
  first_full t order d v e = go (lookup t d.queues) refl
    where
      go :
          (o : Option (List T))
          → lookup t d.queues ≡ o
          → (x : T) × (q : List T) × (lookup t d.queues ≡ some (x ∷ q))
      go none h = absurd (ground (arith, h, v.same t, e, eq_refl t))
      go (some []) h = absurd (ground (arith, v.full t [] h))
      go (some (x ∷ q)) h = (x, q, h)

  pop_first :
      (t : String) (order : List String) (d : FairShare T) (x : T) (q : List T)
      → d.tenant_order ≡ t ∷ order
      → lookup t d.queues ≡ some (x ∷ q)
      → pop d ≡ (some (t, x), left_over t q order d.queues)
  unfolding pop pop_rounds
  pop_first t order d x q e h = rw (pop, e, h, serve-some t x q order d) refl

  left_over-IsFair :
      (t : String) (q : List T) (order : List String) (d : FairShare T)
      → IsFair d
      → d.tenant_order ≡ t ∷ order
      → IsFair (left_over t q order d.queues)
  left_over-IsFair t [] order d v e =
      let dis : Distinct (t ∷ order) = rw e at v.distinct in
      record {
        distinct = dis.1;
        same = λ u.
            ap is_some (lookup-remove t u d.queues)
            ∙ ground (arith, v.same u, e, dis.0, eq_iff t u);
        full = λ u r h. ground (arith, h, v.full u r, lookup-remove t u d.queues);
      }
  left_over-IsFair t (y ∷ q) order d v e =
      let dis : Distinct (t ∷ order) = rw e at v.distinct in
      record {
        distinct = Distinct-append t order dis.0 dis.1;
        same = λ u.
            ap is_some (lookup-insert t u (y ∷ q) d.queues)
            ∙ ground (arith, v.same u, e, has-append u order (t ∷ []), eq_iff t u);
        full = λ u r h. ground (arith, h, v.full u r, lookup-insert t u (y ∷ q) d.queues);
      }

  waiting-left_over :
      (t u : String) (q : List T) (order : List String) (d : FairShare T)
      → waiting u (left_over t q order d.queues) ≡ (if t == u then q else waiting u d)
  waiting-left_over t u [] order d =
      ap (λ o. unwrap_or o []) (lookup-remove t u d.queues) ∙ ground arith
  waiting-left_over t u (x ∷ q) order d =
      ap (λ o. unwrap_or o []) (lookup-insert t u (x ∷ q) d.queues) ∙ ground arith

  order-left_over :
      (t : String) (q : List T) (order : List String) (d : FairShare T)
      → (left_over t q order d.queues).tenant_order
        ≡ (if filled q then order ++ (t ∷ []) else order)
  order-left_over t [] order d = refl
  order-left_over t (x ∷ q) order d = refl

  -- An item that is pushed stands behind the others of its tenant, and changes nothing for another
  -- tenant. A pop of a dispatcher whose order is empty returns nothing; one of a dispatcher whose
  -- order starts with a tenant returns the first item of that tenant, takes this item away and no
  -- other, and puts the tenant last in the order if it has more items.
  pub fair_queue_lem :
      (d : FairShare T)
      → IsFair d
      → ((t u : String) (x : T)
          → waiting u (push t x d) ≡ (if t == u then waiting t d ++ (x ∷ []) else waiting u d))
        × (d.tenant_order ≡ [] → pop d ≡ (none, d))
        × ((t : String) (order : List String)
            → d.tenant_order ≡ t ∷ order
            → (x : T) × (q : List T) × (waiting t d ≡ x ∷ q)
              × ((pop d).0 ≡ some (t, x))
              × ((u : String) → waiting u (pop d).1 ≡ (if t == u then q else waiting u d))
              × ((pop d).1.tenant_order ≡ (if filled q then order ++ (t ∷ []) else order)))
  unfolding push pop pop_rounds
  fair_queue_lem d v = (
    λ t u x.
        ap (λ o. unwrap_or o [])
          (lookup-insert t u (unwrap_or (lookup t d.queues) [] ++ (x ∷ [])) d.queues)
        ∙ ground arith,
    λ e. rw (pop, e) refl,
    λ t order e.
        let (x, q, h) = first_full t order d v e in
        let p = pop_first t order d x q e h in
        (
          x,
          q,
          rw h refl,
          ap (λ r. r.0) p,
          λ u. ap (λ r. waiting u r.1) p ∙ waiting-left_over t u q order d,
          ap (λ r. r.1.tenant_order) p ∙ order-left_over t q order d,
        ),
  )

  pub pop-IsFair : (d : FairShare T) → IsFair d → IsFair (pop d).1
  pop-IsFair d v = go d.tenant_order refl
    where
      go : (order : List String) → d.tenant_order ≡ order → IsFair (pop d).1
      go [] e = subst (λ r. IsFair r.1) (sym ((fair_queue_lem d v).1 e)) v
      go (t ∷ order) e =
          let (x, q, h) = first_full t order d v e in
          subst (λ r. IsFair r.1) (sym (pop_first t order d x q e h))
            (left_over-IsFair t q order d v e)
