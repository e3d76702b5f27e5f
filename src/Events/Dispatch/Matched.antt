-- ===== src/Events/Dispatch/Matched.antt =====
-- src/events/dispatch.rs: the hooks that an event fires, against a filter of the definition's hooks,
-- and what a recording sink has seen after it.
use mathlib.Core.List.{append-nil, append_assoc}
use aegis_fs.Prelude.{
  suc, ◌+◌, Bool, not, ◌&&◌, List, [], ◌∷◌, ◌++◌, length, count_if, filter, ◌≡◌, refl, ap, arith,
  Bool-cases, inl, inr,
}
use aegis_fs.Prelude.Map.{is_some}
use aegis_fs.Domain.Workflow.{HookSpec, WorkflowDef}
use aegis_fs.Events.Kind.{EventKind}
use aegis_fs.Events.Dispatch.{
  MatchStats, no_stats, slice_for, filtered_out, match_loop, match_hooks,
}

-- A hook fires if its filter admits the event and it has a URL.
abbrev pub applies : EventKind → HookSpec → Bool
applies kind spec = not (filtered_out kind spec.event_filter) && is_some spec.webhook_url

abbrev pub has_no_url : EventKind → HookSpec → Bool
has_no_url kind spec = not (filtered_out kind spec.event_filter) && not (is_some spec.webhook_url)

-- What a loop over the hooks has added to the matched ones and to the counters.
abbrev Looped :
    EventKind → List HookSpec → List HookSpec → MatchStats → List HookSpec × MatchStats → Type 0
Looped kind specs matched stats r =
    (r.0 ≡ matched ++ filter (applies kind) specs)
    × (r.1.matched ≡ stats.matched + count_if (applies kind) specs)
    × (r.1.filtered ≡ stats.filtered + count_if (λ spec. filtered_out kind spec.event_filter) specs)
    × (r.1.no_url ≡ stats.no_url + count_if (has_no_url kind) specs)

match_loop_lem :
    (kind : EventKind) (specs matched : List HookSpec) (stats : MatchStats)
    → Looped kind specs matched stats (match_loop kind specs matched stats)
unfolding match_loop
match_loop_lem kind [] matched stats =
    (cc (append-nil matched), omega arith, omega arith, omega arith)
match_loop_lem kind (spec ∷ specs) matched stats =
    elim (Bool-cases (filtered_out kind spec.event_filter)) [
      | inl e ↦
          let (m, a, b, c) =
            match_loop_lem kind specs matched (record stats { filtered = suc stats.filtered }) in
          rw e (m, a, omega (arith, b), c)
      | inr e ↦ elim (Bool-cases (is_some spec.webhook_url)) [
        | inl u ↦
            let (m, a, b, c) =
              match_loop_lem kind specs (matched ++ (spec ∷ []))
                (record stats { matched = suc stats.matched }) in
            rw (e, u)
              (
                cc (m, append_assoc matched (spec ∷ []) (filter (applies kind) specs)),
                omega (arith, a),
                b,
                c,
              )
        | inr u ↦
            let (m, a, b, c) =
              match_loop_lem kind specs matched (record stats { no_url = suc stats.no_url }) in
            rw (e, u) (m, a, b, omega (arith, c))
      ]
    ]

counts_add :
    (kind : EventKind) (specs : List HookSpec)
    → count_if (applies kind) specs
        + count_if (λ spec. filtered_out kind spec.event_filter) specs
        + count_if (has_no_url kind) specs
      ≡ length specs
counts_add kind [] = refl
counts_add kind (spec ∷ specs) = let rest = counts_add kind specs in ground arith

module _ {Json F64 : Type 0} (def : WorkflowDef Json F64) (kind : EventKind) where
  -- The matched hooks are those of the kind's slice that have a URL and whose filter, if they have
  -- one, is the event's code with or without its prefix, in the order of the definition; each hook
  -- of the slice is counted once, as matched, as filtered out, or as one without a URL.
  pub match_hooks_lem :
      ((match_hooks def kind).0 ≡ filter (applies kind) (slice_for def.hooks kind))
      × ((match_hooks def kind).1.matched ≡ length (match_hooks def kind).0)
      × ((match_hooks def kind).1.matched
            + (match_hooks def kind).1.filtered
            + (match_hooks def kind).1.no_url
          ≡ length (slice_for def.hooks kind))
  unfolding match_hooks
  match_hooks_lem =
      let specs = slice_for def.hooks kind in
      let (m, a, b, c) = match_loop_lem kind specs [] no_stats in
      (m, omega (arith, a, ap length m), omega (arith, a, b, c, counts_add kind specs))
