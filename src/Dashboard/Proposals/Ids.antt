-- ===== src/Dashboard/Proposals/Ids.antt =====
-- The ids that the replay of the events finds proposed and resolved, against the events.
use Prim.Native.String.{String}
use mathlib.Core.List.{foldl}
use text.Mathlib.Text.{◌==◌ as str_eq}
use text.Mathlib.TextEquality.{eq_iff}
use refluo.Prelude.Maps.{
  string_eq, map_get, map_get-map_set, set_has, set_add, IsDistinct, map_set-IsDistinct,
}
use refluo.Prelude.{
  ℕ, ◌≡◌, refl, ◌∙◌, inl, inr, Bool, true, false, not, ◌&&◌, ◌||◌, Option, none, some, List, [],
  ◌∷◌, ◌++◌, arith, any, if◌then◌else◌, Bool-cases,
}
use refluo.Dashboard.Proposals.{TimelockEvent, Seen, is_propose, on_event}

abbrev pub is_some : {A : Type 0} → Option A → Bool
is_some none = false
is_some (some a) = true

abbrev first_of : {A : Type 0} → Option A → Option A → Option A
first_of none b = b
first_of (some a) b = some a

-- The eta of the last event that proposes an id.
abbrev pub last_eta : List TimelockEvent → String → Option ℕ
last_eta [] id = none
last_eta (e ∷ es) id =
    first_of (last_eta es id) (if is_propose e && str_eq e.id id then some e.eta else none)

-- Some event executes or cancels the id.
abbrev pub is_resolved : List TimelockEvent → String → Bool
is_resolved es id = any (λ e. not (is_propose e) && str_eq e.id id) es

pub first_of-none : {A : Type 0} (o : Option A) → first_of o none ≡ o
first_of-none none = refl
first_of-none (some a) = refl

set_has-append :
    (k j : String) (s : List String) → set_has j (s ++ k ∷ []) ≡ set_has j s || str_eq k j
unfolding set_has
set_has-append k j [] = ground arith
set_has-append k j (i ∷ s) = ground (arith, set_has-append k j s)

set_has-set_add :
    (k j : String) (s : List String) → set_has j (set_add k s) ≡ set_has j s || str_eq k j
unfolding set_add
set_has-set_add k j s = elim (Bool-cases (set_has k s)) [
  | inl here ↦ rw here (elim (Bool-cases (str_eq k j)) [
    | inl same ↦ let here' : set_has j s ≡ true = rw ((eq_iff k j).0 same) at here in ground arith
    | inr other ↦ ground arith
  ])
  | inr new ↦ rw new (set_has-append k j s)
]

pub proposed_ids-last_eta :
    (seen : Seen) (es : List TimelockEvent) (id : String)
    → map_get id (foldl on_event seen es).proposed_ids
      ≡ first_of (last_eta es id) (map_get id seen.proposed_ids)
unfolding on_event
proposed_ids-last_eta seen [] id = refl
proposed_ids-last_eta seen (e ∷ es) id =
    proposed_ids-last_eta (on_event seen e) es id ∙ elim (Bool-cases (is_propose e)) [
      | inl proposes ↦
          simp proposes (ground (arith, map_get-map_set e.id id e.eta seen.proposed_ids))
      | inr settles ↦ simp settles (ground arith)
    ]

pub resolved_ids-is_resolved :
    (seen : Seen) (es : List TimelockEvent) (id : String)
    → set_has id (foldl on_event seen es).resolved_ids
      ≡ set_has id seen.resolved_ids || is_resolved es id
unfolding on_event
resolved_ids-is_resolved seen [] id = ground arith
resolved_ids-is_resolved seen (e ∷ es) id =
    resolved_ids-is_resolved (on_event seen e) es id ∙ elim (Bool-cases (is_propose e)) [
      | inl proposes ↦ simp proposes refl
      | inr settles ↦ simp settles (ground (arith, set_has-set_add e.id id seen.resolved_ids))
    ]

pub seen-IsDistinct :
    (seen : Seen) (es : List TimelockEvent)
    → IsDistinct seen.proposed_ids
    → IsDistinct (foldl on_event seen es).proposed_ids
unfolding on_event
seen-IsDistinct seen [] h = h
seen-IsDistinct seen (e ∷ es) h =
    seen-IsDistinct (on_event seen e) es (elim (Bool-cases (is_propose e)) [
      | inl proposes ↦ simp proposes (map_set-IsDistinct e.id e.eta seen.proposed_ids h)
      | inr settles ↦ simp settles h
    ])
