-- ===== src/Scheduler/Cron/Fields.antt =====
-- src/scheduler/cron.rs: what a parsed field contains.
use Prim.Native.String.{String}
use aegis_fs.Prelude.{
  ℕ, ◌+◌, ◌-◌, ◌^◌, ◌<◌, ◌≤◌, true, false, none, some, List, [], ◌∷◌, ◌++◌, ◌≡◌, ◌≢◌, ◌↔◌, ◌⊎◌,
  refl, arith, inl, inr, Elem, leb, Bool-cases, Option-cases, Elem-append_left, Elem-append_right,
  Elem-append_cases,
}
use aegis_fs.Prelude.Chars.{trim, split, has_char, strip_prefix, parse_u32}
use aegis_fs.Prelude.Eq.{◌==◌, string_eq, eq_iff}
use aegis_fs.Prelude.Sort.{sort_by}
use aegis_fs.Prelude.Result.{ok, Result-cases}
use aegis_fs.Scheduler.Cron.{
  CronField, contains, inclusive, step_up, parse_step, parse_range, parse_single, parse_part,
  parse_parts, parse_field, dedup,
}
use aegis_fs.Scheduler.Cron.Values.{
  Elem-inclusive, Stepped, Elem-step_up, Ascending, sorted_values, contains_iff,
}

-- The numbers that one part of a field stands for: all of them, every so many of them, those from a
-- first to a last, or one.
pub data Denotes (min max : ℕ) (text : String) (v : ℕ) : Type 0 where
  every : text ≡ "*" → min ≤ v → v ≤ max → Denotes min max text v
  each :
      (digits : String) (step : ℕ)
      → text ≢ "*"
      → strip_prefix text "*/" ≡ some digits
      → parse_u32 digits ≡ ok step
      → 0 < step
      → Stepped min step max v
      → Denotes min max text v
  between :
      (first second : String) (others : List String) (start end : ℕ)
      → text ≢ "*"
      → strip_prefix text "*/" ≡ none
      → has_char 45 text ≡ true
      → split 45 text ≡ first ∷ second ∷ others
      → parse_u32 first ≡ ok start
      → parse_u32 second ≡ ok end
      → min ≤ start
      → start ≤ v
      → v ≤ end
      → end ≤ max
      → Denotes min max text v
  only :
      text ≢ "*"
      → strip_prefix text "*/" ≡ none
      → has_char 45 text ≡ false
      → parse_u32 text ≡ ok v
      → min ≤ v
      → v ≤ max
      → Denotes min max text v

Denotes-bounds : (min max v : ℕ) (text : String) → Denotes min max text v → (min ≤ v) × (v ≤ max)
Denotes-bounds min max v text (every _ a b) = (a, b)
Denotes-bounds min max v text (each _ _ _ _ _ _ (i, e, b)) = (grind arith, b)
Denotes-bounds min max v text (between _ _ _ _ _ _ _ _ _ _ _ a b c d) = (omega arith, omega arith)
Denotes-bounds min max v text (only _ _ _ _ a b) = (a, b)

module _ (field : String) (min max : ℕ) where
  parse_single-Elem :
      (text : String) (values : List ℕ) (v : ℕ)
      → parse_single field min max text ≡ ok values
      → Elem v values ↔ ((parse_u32 text ≡ ok v) × (min ≤ v) × (v ≤ max))
  parse_single-Elem text values v h = elim (Result-cases (parse_u32 text)) [
    | inl (e, q) ↦ absurd (ground (arith, q, h))
    | inr (n, q) ↦ (λ m. ground (arith, q, h), λ m. ground (arith, q, h))
  ]

  parse_step-Elem :
      (text : String) (values : List ℕ) (v : ℕ)
      → max < 2 ^ 32
      → parse_step field min max text ≡ ok values
      → (step : ℕ) × (parse_u32 text ≡ ok step)
        × (0 < step)
        × (Elem v values ↔ Stepped min step max v)
  parse_step-Elem text values v l h = elim (Result-cases (parse_u32 text)) [
    | inl (e, q) ↦ absurd (ground (arith, q, h))
    | inr (step, q) ↦
        let p : 0 < step = ground (arith, q, h) in
        let same : step_up (max + 1 - min) step max min ≡ values = ground (arith, q, h) in
        (step, q, p, rw same at (Elem-step_up step max min v p l))
  ]

  parse_range-Elem :
      (parts : List String) (values : List ℕ)
      → parse_range field min max parts ≡ ok values
      → (first : String) × (second : String) × (others : List String) × (start : ℕ) × (end : ℕ)
        × (parts ≡ first ∷ second ∷ others)
        × (parse_u32 first ≡ ok start)
        × (parse_u32 second ≡ ok end)
        × (min ≤ start)
        × (end ≤ max)
        × (inclusive start end ≡ values)
  parse_range-Elem [] values h = absurd (cc)
  parse_range-Elem (_ ∷ []) values h = absurd (cc)
  parse_range-Elem (first ∷ second ∷ others) values h = elim (Result-cases (parse_u32 first)) [
    | inl (e, q) ↦ absurd (ground (arith, q, h))
    | inr (start, q) ↦ elim (Result-cases (parse_u32 second)) [
      | inl (e, r) ↦ absurd (ground (arith, q, r, h))
      | inr (end, r) ↦ (
        first,
        second,
        others,
        start,
        end,
        refl,
        q,
        r,
        ground (arith, q, r, h),
        ground (arith, q, r, h),
        ground (arith, q, r, h),
      )
    ]
  ]

  -- What a parsed part is, by the form of its text.
  part_cases :
      (text : String) (values : List ℕ)
      → parse_part field min max text ≡ ok values
      → ((text ≡ "*") × (inclusive min max ≡ values))
        ⊎ (((digits : String) × (text ≢ "*")
              × (strip_prefix text "*/" ≡ some digits)
              × (parse_step field min max digits ≡ ok values))
            ⊎ (((text ≢ "*")
                  × (strip_prefix text "*/" ≡ none)
                  × (has_char 45 text ≡ true)
                  × (parse_range field min max (split 45 text) ≡ ok values))
                ⊎ ((text ≢ "*")
                    × (strip_prefix text "*/" ≡ none)
                    × (has_char 45 text ≡ false)
                    × (parse_single field min max text ≡ ok values))))
  unfolding parse_part
  part_cases text values h = elim (Bool-cases (text == "")) [
    | inl e ↦ absurd (ground (arith, e, h))
    | inr e ↦ elim (Bool-cases (text == "*")) [
      | inl star ↦ inl ((eq_iff text "*").0 star, ground (arith, e, star, h))
      | inr star ↦
          let plain : text ≢ "*" = λ p. ground (arith, eq_iff text "*", star, p) in
          elim (Option-cases (strip_prefix text "*/")) [
            | inr (digits, q) ↦ inr (inl (digits, plain, q, rw (e, star, q) at h))
            | inl q ↦ elim (Bool-cases (has_char 45 text)) [
              | inl dash ↦ inr (inr (inl (plain, q, dash, rw (e, star, q, dash) at h)))
              | inr dash ↦ inr (inr (inr (plain, q, dash, rw (e, star, q, dash) at h)))
            ]
          ]
    ]
  ]

  module _ (text : String) (values : List ℕ) (v : ℕ) (fits : max < 2 ^ 32) where
    part-Denotes :
        parse_part field min max text ≡ ok values → Elem v values → Denotes min max text v
    part-Denotes h m = elim (part_cases text values h) [
      | inl (star, same) ↦
          let (low, high) = (Elem-inclusive v min max).0 (rw same m) in every star low high
      | inr (inl (digits, plain, strip, q)) ↦
          let (step, r, p, (to, of)) = parse_step-Elem digits values v fits q in
          each digits step plain strip r p (to m)
      | inr (inr (inl (plain, strip, dash, q))) ↦
          let (first, second, others, start, end, cut, a, b, low, high, same) =
            parse_range-Elem (split 45 text) values q in
          let (from, to) = (Elem-inclusive v start end).0 (rw same m) in
          between first second others start end plain strip dash cut a b low from to high
      | inr (inr (inr (plain, strip, dash, q))) ↦
          let (a, low, high) = (parse_single-Elem text values v q).0 m in
          only plain strip dash a low high
    ]

    Denotes-part :
        parse_part field min max text ≡ ok values → Denotes min max text v → Elem v values
    Denotes-part h (every star low high) = elim (part_cases text values h) [
      | inl (_, same) ↦ rw (← same) ((Elem-inclusive v min max).1 (low, high))
      | inr (inl (_, plain, _, _)) ↦ absurd (plain star)
      | inr (inr (inl (plain, _, _, _))) ↦ absurd (plain star)
      | inr (inr (inr (plain, _, _, _))) ↦ absurd (plain star)
    ]
    Denotes-part h (each digits step plain strip a p s) = elim (part_cases text values h) [
      | inl (star, _) ↦ absurd (plain star)
      | inr (inl (digits', _, strip', q)) ↦
          let (step', a', p', (to, of)) = parse_step-Elem digits' values v fits q in
          let same : step ≡ step' = ground (arith, strip, strip', a, a') in of (rw same at s)
      | inr (inr (inl (_, strip', _, _))) ↦ absurd (cc)
      | inr (inr (inr (_, strip', _, _))) ↦ absurd (cc)
    ]
    Denotes-part h
          (between first second others start end plain strip dash cut a b low from to high) =
        elim (part_cases text values h) [
          | inl (star, _) ↦ absurd (plain star)
          | inr (inl (_, _, strip', _)) ↦ absurd (cc)
          | inr (inr (inl (_, _, _, q))) ↦
              let (f, g, o, start', end', cut', a', b', _, _, same) =
                parse_range-Elem (split 45 text) values q in
              let same_start : start ≡ start' = ground (arith, cut, cut', a, a') in
              let same_end : end ≡ end' = ground (arith, cut, cut', b, b') in
              rw (← same) ((Elem-inclusive v start' end').1 (omega arith, omega arith))
          | inr (inr (inr (_, _, dash', _))) ↦ absurd (cc)
        ]
    Denotes-part h (only plain strip dash a low high) = elim (part_cases text values h) [
      | inl (star, _) ↦ absurd (plain star)
      | inr (inl (_, _, strip', _)) ↦ absurd (cc)
      | inr (inr (inl (_, _, dash', _))) ↦ absurd (cc)
      | inr (inr (inr (_, _, _, q))) ↦ (parse_single-Elem text values v q).1 (a, low, high)
    ]

  -- Some part, without the white space around it, denotes `v`.
  abbrev pub SomePart : List String → ℕ → Type 0
  SomePart parts v = (part : String) × Elem part parts × Denotes min max (trim part) v

  parts-Elem :
      max < 2 ^ 32
      → (allowed : List ℕ) (parts : List String) (values : List ℕ)
      → parse_parts field min max allowed parts ≡ ok values
      → (v : ℕ) → Elem v values ↔ (Elem v allowed ⊎ SomePart parts v)
  unfolding parse_parts
  parts-Elem fits allowed [] values h v =
      let same : allowed ≡ values = ground (arith, h) in
      (λ m. inl (rw same m), λ c. elim c [ inl m ↦ rw (← same) m | inr (_, m, _) ↦ absurd m ])
  parts-Elem fits allowed (part ∷ parts) values h v =
      elim (Result-cases (parse_part field min max (trim part))) [
        | inl (e, q) ↦ absurd (ground (arith, q, h))
        | inr (more, q) ↦
            let rest = parts-Elem fits (allowed ++ more) parts values (rw q at h) v in
            (
              λ m. elim (rest.0 m) [
                | inr (p, n, d) ↦ inr (p, inr n, d)
                | inl n ↦ elim (Elem-append_cases v allowed more n) [
                  | inl a ↦ inl a
                  | inr b ↦ inr (part, inl refl, part-Denotes (trim part) more v fits q b)
                ]
              ],
              λ c. elim c [
                | inl a ↦ rest.1 (inl (Elem-append_left v allowed more a))
                | inr (p, inr n, d) ↦ rest.1 (inr (p, n, d))
                | inr (p, inl e, d) ↦ rest.1 (
                    inl (
                      Elem-append_right v allowed more
                        (Denotes-part (trim part) more v fits q (rw e at d))))
              ],
            )
      ]

  -- A field that parses holds its numbers in ascending order, each once; it contains a number exactly
  -- when one of the parts between the commas denotes it, and every such number lies within the bounds
  -- of the field.
  pub parse_field_lem :
      (expr : String) (f : CronField)
      → max < 2 ^ 32
      → parse_field field min max expr ≡ ok f
      → Ascending f.allowed
        × ((v : ℕ) → (contains v f ≡ true) ↔ SomePart (split 44 expr) v)
        × ((v : ℕ) → contains v f ≡ true → (min ≤ v) × (v ≤ max))
  unfolding parse_field
  parse_field_lem expr f fits h =
      elim (Result-cases (parse_parts field min max [] (split 44 expr))) [
        | inl (e, q) ↦ absurd (ground (arith, q, h))
        | inr (values, q) ↦
            let same : dedup (sort_by leb values) ≡ f.allowed = ground (arith, q, h) in
            let (ascending, members) = rw same at (sorted_values values) in
            let parts : (v : ℕ) → (contains v f ≡ true) ↔ SomePart (split 44 expr) v = λ v.
              (let (to, of) = parts-Elem fits [] (split 44 expr) values q v in
                (
                  λ c. some_of (to ((members v).0 ((contains_iff v f).0 c))),
                  λ d. (contains_iff v f).1 ((members v).1 (of (inr d))),
                )) in
            (
              ascending,
              parts,
              λ v c. (let (part, _, d) = (parts v).0 c in Denotes-bounds min max v (trim part) d),
            )
      ]
    where
      some_of : {P : Type 0} → ⊥ ⊎ P → P
      some_of (inl e) = absurd e
      some_of (inr p) = p
