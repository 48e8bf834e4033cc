-- ===== src/Keeper/MetricsLog/Lines.antt =====
-- Appending to the log and reading it back.
use refluo.Prelude.{
  ℕ, ◌≡◌, ◌≢◌, refl, sym, ap, ◌∙◌, inl, inr, Bool, true, false, not, Option, none, some, List, [],
  ◌∷◌, ◌++◌, arith, All, All-append, keep, ◌==◌, Bool-cases,
}
use mathlib.Core.List.{append_assoc, append-nil}
use refluo.Keeper.MetricsLog.{
  MetricEvent, Json, newline, is_blank, onto_head, split_lines, append_metric_event, parse_lines,
  read_metric_events, onto_events,
}

-- A text has at least one line.
split-nonempty : (xs : List ℕ) → (l : List ℕ) × (ls : List (List ℕ)) × (split_lines xs ≡ l ∷ ls)
unfolding split_lines
split-nonempty [] = ([], [], refl)
split-nonempty (c ∷ cs) =
    let (l, ls, e) = split-nonempty cs in
    elim (Bool-cases (c == newline)) [
      | inl b ↦ ([], split_lines cs, rw (b))
      | inr n ↦ (c ∷ l, ls, rw (n) (ap (onto_head c) e))
    ]

onto_head-append :
    (c : ℕ) (l : List ℕ) (ls ms : List (List ℕ))
    → onto_head c ((l ∷ ls) ++ ms) ≡ onto_head c (l ∷ ls) ++ ms
onto_head-append c l ls ms = refl

-- A line break separates the lines before it from the lines after it.
split_lines-append :
    (xs ys : List ℕ) → split_lines (xs ++ newline ∷ ys) ≡ split_lines xs ++ split_lines ys
unfolding split_lines
split_lines-append [] ys = refl
split_lines-append (c ∷ cs) ys = elim (Bool-cases (c == newline)) [
  | inl b ↦ rw (b) (ap (λ m. [] ∷ m) (split_lines-append cs ys))
  | inr n ↦
      rw (n)
        (ap (onto_head c) (split_lines-append cs ys) ∙ head_of (split_lines cs) (split-nonempty cs))
]
  where
    head_of :
        (m : List (List ℕ))
        → (l : List ℕ) × (ls : List (List ℕ)) × (m ≡ l ∷ ls)
        → onto_head c (m ++ split_lines ys) ≡ onto_head c m ++ split_lines ys
    head_of [] (l, ls, e) = absurd (cc)
    head_of (m ∷ ms) p = refl

split_lines-one_line : (xs : List ℕ) → All (λ c. c ≢ newline) xs → split_lines xs ≡ xs ∷ []
unfolding split_lines
split_lines-one_line [] h = refl
split_lines-one_line (c ∷ cs) (p, h) =
    let other : (c == newline) ≡ false = ground arith in rw (other) (rw (split_lines-one_line cs h))

abbrev is_full : List ℕ → Bool
is_full l = not (is_blank l)

keep_full :
    (l : List ℕ) (ls : List (List ℕ))
    → is_full l ≡ true
    → keep is_full (l ∷ ls) ≡ l ∷ keep is_full ls
keep_full l ls h = rw (h, keep)

keep_blank :
    (l : List ℕ) (ls : List (List ℕ)) → is_full l ≡ false → keep is_full (l ∷ ls) ≡ keep is_full ls
keep_blank l ls h = rw (h, keep)

module _ (json : Json) where
  read_lines : List (List ℕ) → List MetricEvent
  read_lines ls = parse_lines json (keep is_full ls)

  read_lines-cons :
      (o : Option MetricEvent) (xs ys zs : List MetricEvent)
      → xs ≡ ys ++ zs
      → onto_events json o xs ≡ onto_events json o ys ++ zs
  read_lines-cons none xs ys zs h = h
  read_lines-cons (some e) xs ys zs h = ap (λ m. e ∷ m) h

  read_lines-append :
      (ls ms : List (List ℕ)) → read_lines (ls ++ ms) ≡ read_lines ls ++ read_lines ms
  unfolding read_lines parse_lines
  read_lines-append [] ms = refl
  read_lines-append (l ∷ ls) ms = elim (Bool-cases (is_full l)) [
    | inr blank ↦
        simp (keep_blank l (ls ++ ms) blank, keep_blank l ls blank) (read_lines-append ls ms)
    | inl full ↦
        simp (keep_full l (ls ++ ms) full, keep_full l ls full)
          (read_lines-cons (json.parse l) _ _ _ (read_lines-append ls ms))
  ]

  read_lines-full :
      (l : List ℕ) {e : MetricEvent}
      → is_full l ≡ true
      → json.parse l ≡ some e
      → read_lines (l ∷ []) ≡ e ∷ []
  unfolding read_lines parse_lines
  read_lines-full l h p = simp (keep_full l [] h, p)

  read_lines-bad : (l : List ℕ) → json.parse l ≡ none → read_lines (l ∷ []) ≡ []
  unfolding read_lines parse_lines
  read_lines-bad l p = elim (Bool-cases (is_full l)) [
    | inr blank ↦ simp (keep_blank l [] blank)
    | inl full ↦ simp (keep_full l [] full, p)
  ]

  read_lines-empty : read_lines ([] ∷ []) ≡ []
  unfolding read_lines parse_lines
  read_lines-empty = refl

  stringify-is_full : (e : MetricEvent) → is_full (json.stringify e) ≡ true
  stringify-is_full e = let (rest, at) = json.is_object e in rw (at)

  -- The lines of a finished line behind a text.
  read_lines-finished :
      (text l : List ℕ)
      → All (λ c. c ≢ newline) l
      → read_lines (split_lines (text ++ newline ∷ (l ++ newline ∷ [])))
        ≡ read_lines (split_lines text) ++ read_lines (l ∷ [])
  read_lines-finished text l h = rw (split_lines-append text (l ++ newline ∷ [])) (
      rw (split_lines-append l []) (
        rw (split_lines-one_line l h) (
          rw (read_lines-append (split_lines text) ((l ∷ []) ++ split_lines [])) (
            rw (read_lines-append (l ∷ []) (split_lines []))
              (rw (nothing_after) (rw (append-nil (read_lines (l ∷ [])))))))))
    where
      nothing_after : read_lines (split_lines []) ≡ []
      nothing_after = ap read_lines (split_lines-one_line [] tt) ∙ read_lines-empty

  read_lines-ended :
      (text : List ℕ)
      → read_lines (split_lines (text ++ newline ∷ [])) ≡ read_lines (split_lines text)
  read_lines-ended text = rw (split_lines-append text []) (
      rw (read_lines-append (split_lines text) (split_lines [])) (
        rw (split_lines-one_line [] tt)
          (rw (read_lines-empty) (append-nil (read_lines (split_lines text))))))

  read_lines-stringify :
      (e : MetricEvent) → read_lines (split_lines (json.stringify e ++ newline ∷ [])) ≡ e ∷ []
  read_lines-stringify e =
      read_lines-ended (json.stringify e)
      ∙ ap read_lines (split_lines-one_line (json.stringify e) (json.one_line e))
      ∙ read_lines-full (json.stringify e) (stringify-is_full e) (json.parse_stringify e)

  -- A file that is missing, or whose last line is finished.
  pub data IsWhole : Option (List ℕ) → Type 0 where
    missing : IsWhole none
    finished : (text : List ℕ) → IsWhole (some (text ++ newline ∷ []))

  -- An event appended to a whole log is read back as the last one, behind all that the log held;
  -- and the log is whole again.
  pub read-append_metric_event :
      (file : Option (List ℕ)) (e : MetricEvent)
      → IsWhole file
      → (read_metric_events json (append_metric_event json file e)
          ≡ read_metric_events json file ++ e ∷ [])
        × IsWhole (append_metric_event json file e)
  unfolding append_metric_event read_metric_events read_lines
  read-append_metric_event file e missing = (read_lines-stringify e, finished (json.stringify e))
  read-append_metric_event file e (finished text) = (
    rw (append_assoc text (newline ∷ []) (json.stringify e ++ newline ∷ [])) (
        read_lines-finished text (json.stringify e) (json.one_line e)
        ∙ ap (λ m. read_lines (split_lines text) ++ m)
            (read_lines-full (json.stringify e) (stringify-is_full e) (json.parse_stringify e))
        ∙ ap (λ m. m ++ e ∷ []) (sym (read_lines-ended text))),
    rw (← append_assoc (text ++ newline ∷ []) (json.stringify e) (newline ∷ []))
        (finished ((text ++ newline ∷ []) ++ json.stringify e)),
  )

  one_line-append :
      (xs ys : List ℕ)
      → All (λ c. c ≢ newline) xs
      → All (λ c. c ≢ newline) ys
      → All (λ c. c ≢ newline) (xs ++ ys)
  one_line-append xs ys h k = All-append (λ c. c ≢ newline) xs ys h k

  -- A write torn before its line break takes the next event with it: if the torn text and that
  -- event's text do not parse together, the log reads as if the event had never been appended.
  torn_write_loses_next :
      (text torn : List ℕ) (e : MetricEvent)
      → All (λ c. c ≢ newline) torn
      → json.parse (torn ++ json.stringify e) ≡ none
      → read_metric_events json (append_metric_event json (some (text ++ newline ∷ torn)) e)
        ≡ read_metric_events json (some (text ++ newline ∷ []))
  unfolding append_metric_event read_metric_events read_lines
  torn_write_loses_next text torn e h p =
      rw (append_assoc text (newline ∷ torn) (json.stringify e ++ newline ∷ [])) (
        rw (← append_assoc torn (json.stringify e) (newline ∷ [])) (
          read_lines-finished text (torn ++ json.stringify e)
            (one_line-append torn (json.stringify e) h (json.one_line e))
          ∙ ap (λ m. read_lines (split_lines text) ++ m)
              (read_lines-bad (torn ++ json.stringify e) p)
          ∙ append-nil (read_lines (split_lines text))
          ∙ sym (read_lines-ended text)))
