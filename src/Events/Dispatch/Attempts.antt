-- ===== src/Events/Dispatch/Attempts.antt =====
-- src/events/dispatch.rs: the deliveries of an event, seen through a sink that records what it is
-- asked to deliver before another sink answers.
use mathlib.Core.List.{append-nil, append_assoc}
use aegis_fs.Prelude.{
  String, true, Option, none, some, List, [], ◌∷◌, ◌++◌, filter, ◌≡◌, refl, sym, ◌∙◌, arith,
  Bool-cases, inl, inr,
}
use aegis_fs.Prelude.Map.{is_some}
use aegis_fs.Prelude.Eq.{string_eq}
use aegis_fs.Prelude.Result.{Result}
use aegis_fs.Domain.Workflow.{HookSpec, WorkflowDef}
use aegis_fs.Events.Kind.{EventKind, RunEventDoc, delivery_id}
use aegis_fs.Events.Outbox.{Delivery}
use aegis_fs.Events.Dispatch.{
  slice_for, match_hooks, delivery_to, deliveries_of, build_deliveries, dispatch, Dispatcher,
  deliver_all,
}
use aegis_fs.Events.Dispatch.Matched.{applies, match_hooks_lem}

-- A sink that also records its deliveries.
abbrev pub logged :
    {S : Type 0}
    → (Delivery → S → Result String (Unit {0}) × S)
    → Delivery
    → List Delivery × S
    → Result String (Unit {0}) × (List Delivery × S)
logged deliver d (log, s) = let (answer, s') = deliver d s in (answer, (log ++ (d ∷ []), s'))

has_url :
    (kind : EventKind) (spec : HookSpec)
    → applies kind spec ≡ true
    → (url : String) × (spec.webhook_url ≡ some url)
has_url kind spec h = of spec.webhook_url (ground arith) refl
  where
    of :
        (u : Option String)
        → is_some u ≡ true
        → spec.webhook_url ≡ u
        → (url : String) × (spec.webhook_url ≡ some url)
    of none h e = absurd (cc)
    of (some url) h e = (url, e)

logs :
    {S : Type 0} (deliver : Delivery → S → Result String (Unit {0}) × S) (ds : List Delivery)
    (w : Dispatcher (List Delivery × S))
    → (deliver_all (logged deliver) ds w).sink.0 ≡ w.sink.0 ++ ds
unfolding deliver_all
logs deliver [] w = sym (append-nil w.sink.0)
logs deliver (d ∷ ds) w = logs deliver ds _ ∙ append_assoc w.sink.0 (d ∷ []) ds

module _ {Json : Type 0} (to_string : RunEventDoc Json → String) (digest : String → String) where
  -- One delivery for each hook, to its URL, all under the same id and with the same body.
  abbrev pub Carries : EventKind → RunEventDoc Json → List HookSpec → List Delivery → Type 0
  Carries kind ev [] [] = Unit
  Carries kind ev (spec ∷ specs) (d ∷ ds) =
      (spec.webhook_url ≡ some d.url)
      × (d.headers ≡ spec.headers)
      × (d.id ≡ delivery_id digest ev.run_id kind ev.tenant ev.def_name)
      × (d.body_json ≡ to_string ev)
      × Carries kind ev specs ds
  Carries kind ev _ _ = ⊥

  deliveries_of_lem :
      (kind : EventKind) (ev : RunEventDoc Json) (specs : List HookSpec)
      → (ds : List Delivery) × (deliveries_of to_string digest kind ev (filter (applies kind) specs)
          ≡ some ds)
        × Carries kind ev (filter (applies kind) specs) ds
  unfolding deliveries_of
  deliveries_of_lem kind ev [] = ([], refl, tt)
  deliveries_of_lem kind ev (spec ∷ specs) =
      let (ds, e, c) = deliveries_of_lem kind ev specs in
      elim (Bool-cases (applies kind spec)) [
        | inr skipped ↦ rw skipped (ds, e, c)
        | inl fires ↦
            let (url, u) = has_url kind spec fires in
            rw (fires, u, e)
              (delivery_to to_string digest kind ev spec url ∷ ds, refl, (u, refl, refl, refl, c))
      ]

  module _ {F64 : Type 0} (def : WorkflowDef Json F64) (kind : EventKind)
      (ev : RunEventDoc Json) where
    build_deliveries_lem :
        (ds : List Delivery) × (build_deliveries to_string digest def kind ev
          ≡ some (ds, (match_hooks def kind).1))
        × Carries kind ev (filter (applies kind) (slice_for def.hooks kind)) ds
    unfolding build_deliveries
    build_deliveries_lem =
        let (ds, e, c) = deliveries_of_lem kind ev (slice_for def.hooks kind) in
        (ds, rw ((match_hooks_lem def kind).0, e) refl, c)

    -- A dispatch does not panic, whatever the hooks are. It attempts one delivery for each matched
    -- hook, in their order, also after failed ones: to the hook's URL, with its headers, and all
    -- under one id and with one body.
    pub dispatch_lem :
        {S : Type 0} (deliver : Delivery → S → Result String (Unit {0}) × S)
        (w : Dispatcher (List Delivery × S))
        → (w' : Dispatcher (List Delivery × S)) × (ds : List Delivery) × (dispatch to_string digest
              (logged deliver)
              def
              kind
              ev
              w
            ≡ some ((match_hooks def kind).1, w'))
          × (w'.sink.0 ≡ w.sink.0 ++ ds)
          × Carries kind ev (filter (applies kind) (slice_for def.hooks kind)) ds
    unfolding dispatch
    dispatch_lem deliver w =
        let (ds, e, c) = build_deliveries_lem in
        (deliver_all (logged deliver) ds w, ds, rw e refl, logs deliver ds w, c)

    pub dispatch-returns :
        {S : Type 0} (deliver : Delivery → S → Result String (Unit {0}) × S) (w : Dispatcher S)
        → (w' : Dispatcher S) × (dispatch to_string digest deliver def kind ev w
            ≡ some ((match_hooks def kind).1, w'))
    unfolding dispatch
    dispatch-returns deliver w =
        let (ds, e, c) = build_deliveries_lem in (deliver_all deliver ds w, rw e refl)
