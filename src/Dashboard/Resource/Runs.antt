-- ===== src/Dashboard/Resource/Runs.antt =====
-- What a panel shows, against the fetches that were started and the answers that they came to.
use Prim.Native.String.{String}
use refluo.Prelude.{
  ℕ, ◌+◌, ◌≡◌, ◌⊎◌, ◌↔◌, refl, sym, ap, ◌∙◌, inl, inr, true, false, Option, none, some, List, [],
  ◌∷◌, arith, ◌==◌, ==_iff, Bool-cases, All, map, length, if◌then◌else◌,
}
use mathlib.Core.Path.{ap₂}
use text.Mathlib.Text.{◌==◌ as str_eq}
use text.Mathlib.TextEquality.{eq_iff}
use refluo.Dashboard.Resource.{
  Key, same_key, EffectRun, State, Settled, succeeded, rejected, Event, renders, reload, settles,
  initial, key, key_of, changed, clean_up, start, run_at, rerun, complete, with_url, reloaded,
  settle, step, is_pending, refreshing,
}

same_key-eq : (a b : Key) → same_key a b ≡ true → a ≡ b
same_key-eq a b h =
    let urls : str_eq a.url b.url ≡ true = ground arith in
    let tokens : a.reload_token ≡ b.reload_token = ground arith in
    ap₂ (λ u t. record { url = u; reload_token = t }) ((eq_iff a.url b.url).0 urls) tokens

same_key-same : (k : Key) → same_key k k ≡ true
same_key-same k =
    let urls : str_eq k.url k.url ≡ true = (eq_iff k.url k.url).1 refl in
    let tokens : k.reload_token == k.reload_token ≡ true = (==_iff _ _).1 refl in
    simp (urls, tokens) refl

not_pending : (k : Key) (o : Option Key) → (is_pending (some k) o ≡ false) ↔ (o ≡ some k)
not_pending k none = ((λ h. absurd (ground arith)), (λ h. absurd (cc h)))
not_pending k (some j) = (
  (λ h. ap some (same_key-eq j k (ground arith))),
  (λ h.
      let same : j ≡ k = cc h in
      let itself : same_key k k ≡ true = same_key-same k in rw same (simp itself refl)),
)

unchanged : (a b : Option Key) → changed a b ≡ false → a ≡ b
unchanged none none h = refl
unchanged (some a) (some b) h = ap some (same_key-eq a b (ground arith))
unchanged none (some b) h = absurd (ground arith)
unchanged (some a) none h = absurd (ground arith)

-- A change of the key to another one starts a fetch for that.
abbrev pub refetched : Option Key → Option Key → List Key → List Key
refetched old none ks = ks
refetched old (some k) ks = if changed old (some k) then k ∷ ks else ks

-- The fetches of a state with this key: all but that for the key are ignored.
data AreRuns : Option Key → List EffectRun → List Key → Type 0 where
  idle :
      {rs : List EffectRun} {ks : List Key}
      → All (λ r. r.ignore ≡ true) rs
      → map (λ r. r.key) rs ≡ ks
      → AreRuns none rs ks
  active :
      {rs : List EffectRun} {ks : List Key} (k : Key)
      → All (λ r. r.ignore ≡ true) rs
      → map (λ r. r.key) rs ≡ ks
      → AreRuns (some k) (record { key = k; ignore = false } ∷ rs) (k ∷ ks)

abbrev AreIgnored : List EffectRun → List Key → Type 0
AreIgnored rs ks = All (λ r. r.ignore ≡ true) rs × (map (λ r. r.key) rs ≡ ks)

AreIgnored-clean_up :
    {o : Option Key} {rs : List EffectRun} {ks : List Key}
    → AreRuns o rs ks
    → AreIgnored (clean_up rs) ks
AreIgnored-clean_up (idle {rs = []} all e) = (tt, e)
AreIgnored-clean_up (idle {rs = r ∷ rs} (i, all) e) = ((refl, all), e)
AreIgnored-clean_up (active k all e) = ((refl, all), ap (λ ks. k ∷ ks) e)

AreRuns-start :
    (old o : Option Key) (rs : List EffectRun) {ks : List Key}
    → changed old o ≡ true
    → AreIgnored rs ks
    → AreRuns o (start o rs) (refetched old o ks)
AreRuns-start old none rs c (all, e) = idle all e
AreRuns-start old (some k) rs c (all, e) = simp c (active k all e)

refetched_same :
    (old o : Option Key) (ks : List Key) → changed old o ≡ false → refetched old o ks ≡ ks
refetched_same old none ks h = refl
refetched_same old (some k) ks h = simp h refl

AreRuns-initial : (o : Option Key) → AreRuns o (start o []) (refetched none o [])
AreRuns-initial none = idle tt refl
AreRuns-initial (some k) = active k tt refl

length-keys : (rs : List EffectRun) → length (map (λ r. r.key) rs) ≡ length rs
length-keys [] = refl
length-keys (r ∷ rs) = let rest = length-keys rs in ground arith

module _ {T : Type 0} where
  -- The events up to now, the last first.
  abbrev pub run : Option String → List (Event T) → State T
  run url [] = initial url
  run url (e ∷ es) = step (run url es) e

  -- The keys of the fetches that were started up to now, the last first.
  abbrev pub fetches : Option String → List (Event T) → List Key
  fetches url [] = refetched none (key_of url 0) []
  fetches url (renders u ∷ es) =
      refetched (key (run url es)) (key_of u (run url es).reload_token) (fetches url es)
  fetches url (reload ∷ es) =
      refetched (key (run url es)) (key_of (run url es).url ((run url es).reload_token + 1))
        (fetches url es)
  fetches url (settles i outcome now_ms ∷ es) = fetches url es

  -- The fetch with this number was started for the panel's key, and none was started since.
  abbrev pub IsLatest : Option String → List (Event T) → ℕ → Key → Type 0
  IsLatest url es i k =
      (key (run url es) ≡ some k)
      × ((older : List Key) × (fetches url es ≡ k ∷ older) × (length older ≡ i))

  -- The event is that the latest fetch settles.
  abbrev pub SettlesLatest : Option String → List (Event T) → Event T → Type 0
  SettlesLatest url es (renders u) = ⊥
  SettlesLatest url es reload = ⊥
  SettlesLatest url es (settles i outcome now_ms) = (k : Key) × IsLatest url es i k

  -- The last fetch that settled while it was the latest was for this key, and came to this value.
  pub data Brought (url : Option String) : List (Event T) → Key → T → Type 0 where
    arrived :
        {es : List (Event T)} {k : Key} {i : ℕ} (v : T) (now_ms : ℕ)
        → IsLatest url es i k
        → Brought url (settles i (succeeded v) now_ms ∷ es) k v
    stays :
        {es : List (Event T)} {k : Key} {v : T} (e : Event T)
        → ¬ SettlesLatest url es e
        → Brought url es k v
        → Brought url (e ∷ es) k v

  AreRuns-rerun :
      (s t : State T) {ks : List Key}
      → t.runs ≡ s.runs
      → AreRuns (key s) s.runs ks
      → AreRuns (key (rerun s t)) (rerun s t).runs (refetched (key s) (key t) ks)
  AreRuns-rerun s t {ks} e h = elim (Bool-cases (changed (key s) (key t))) [
    | inl c ↦ simp c (AreRuns-start (key s) (key t) _ c (rw e (AreIgnored-clean_up h)))
    | inr same ↦
        let same_key_now : key s ≡ key t = unchanged (key s) (key t) same in
        simp (same, refetched_same (key s) (key t) ks same) (rw (e, ← same_key_now) h)
  ]

  AreRuns-settle :
      (s : State T) (r : Option EffectRun) (outcome : Settled T) (now_ms : ℕ) {ks : List Key}
      → AreRuns (key s) s.runs ks
      → AreRuns (key (settle r outcome now_ms s)) (settle r outcome now_ms s).runs ks
  AreRuns-settle s none outcome now_ms h = h
  AreRuns-settle s (some r) (succeeded v) now_ms h = elim (Bool-cases r.ignore) [
    | inl i ↦ simp i h
    | inr n ↦ simp n h
  ]
  AreRuns-settle s (some r) (rejected e) now_ms h = elim (Bool-cases r.ignore) [
    | inl i ↦ simp i h
    | inr n ↦ simp n h
  ]

  -- What the fetch with a number does when it settles: all of it if it is the latest for the key,
  -- and nothing otherwise.
  abbrev Settles : Option Key → List Key → ℕ → Settled T → ℕ → State T → State T → Type 0
  Settles o ks i outcome now_ms s t =
      ((k : Key) × ((o ≡ some k) × ((older : List Key) × (ks ≡ k ∷ older) × (length older ≡ i)))
        × (t ≡ complete k outcome now_ms s))
      ⊎ (((k : Key) → (o ≡ some k) → (older : List Key) → (ks ≡ k ∷ older) → ¬ (length older ≡ i))
          × (t ≡ s))

  settle-ignored :
      (i : ℕ) (rs : List EffectRun) (outcome : Settled T) (now_ms : ℕ) (s : State T)
      → All (λ r. r.ignore ≡ true) rs
      → settle (run_at i rs) outcome now_ms s ≡ s
  settle-ignored i [] outcome now_ms s all = refl
  settle-ignored i (r ∷ rs) outcome now_ms s (e, all) = elim (Bool-cases (i == length rs)) [
    | inl this ↦ simp (this, e) refl
    | inr other ↦ simp other (settle-ignored i rs outcome now_ms s all)
  ]

  AreRuns-Settles :
      {o : Option Key} {rs : List EffectRun} {ks : List Key} (i : ℕ) (outcome : Settled T)
      (now_ms : ℕ) (s : State T)
      → AreRuns o rs ks
      → Settles o ks i outcome now_ms s (settle (run_at i rs) outcome now_ms s)
  AreRuns-Settles {rs = rs} i outcome now_ms s (idle all e) =
      inr (λ k h older f l. absurd (cc h), settle-ignored i rs outcome now_ms s all)
  AreRuns-Settles i outcome now_ms s (active {rs = rs} {ks = ks} k all e) =
      let lengths : length ks ≡ length rs = ap length (sym e) ∙ length-keys rs in
      elim (Bool-cases (i == length rs)) [
        | inl this ↦
            let last : length rs ≡ i = sym ((==_iff i (length rs)).0 this) in
            inl (k, (refl, (ks, refl, lengths ∙ last)), simp this refl)
        | inr other ↦ inr (
          λ j h older f l.
              let same : length older ≡ length ks = ground arith in
              absurd (ground (arith, ==_iff i (length rs))),
          simp other (settle-ignored i rs outcome now_ms s all),
        )
      ]

  run-AreRuns :
      (url : Option String) (es : List (Event T))
      → AreRuns (key (run url es)) (run url es).runs (fetches url es)
  unfolding step
  run-AreRuns url [] = AreRuns-initial (key_of url 0)
  run-AreRuns url (renders u ∷ es) =
      AreRuns-rerun (run url es) (with_url u (run url es)) refl (run-AreRuns url es)
  run-AreRuns url (reload ∷ es) =
      AreRuns-rerun (run url es) (reloaded (run url es)) refl (run-AreRuns url es)
  run-AreRuns url (settles i outcome now_ms ∷ es) =
      AreRuns-settle (run url es) (run_at i (run url es).runs) outcome now_ms (run-AreRuns url es)

  -- The panel has this value, without an error, from a fetch for this key.
  abbrev Has : State T → Key → T → Type 0
  Has s k v = (s.shown ≡ some v) × (s.error ≡ none) × (s.completed_key ≡ some k)

  Has-rerun : (s t : State T) (k : Key) (v : T) → Has (rerun s t) k v ↔ Has t k v
  Has-rerun s t k v = elim (Bool-cases (changed (key s) (key t))) [
    | inl yes_changed ↦ simp yes_changed ((λ h. h), (λ h. h))
    | inr same ↦ simp same ((λ h. h), (λ h. h))
  ]

  run-Settles :
      (url : Option String) (es : List (Event T)) (i : ℕ) (outcome : Settled T) (now_ms : ℕ)
      → Settles
          (key (run url es))
          (fetches url es)
          i
          outcome
          now_ms
          (run url es)
          (run url (settles i outcome now_ms ∷ es))
  unfolding step
  run-Settles url es i outcome now_ms =
      AreRuns-Settles i outcome now_ms (run url es) (run-AreRuns url es)

  Has-complete :
      (url : Option String) (es : List (Event T)) (i : ℕ) (j : Key) (outcome : Settled T)
      (now_ms : ℕ) (k : Key) (v : T)
      → IsLatest url es i j
      → Has (complete j outcome now_ms (run url es)) k v
      → Brought url (settles i outcome now_ms ∷ es) k v
  Has-complete url es i j (succeeded w) now_ms k v latest (shown, e, c) =
      let same_value : w ≡ v = cc shown in
      let same_key_done : j ≡ k = cc c in
      rw (← same_value, ← same_key_done) (arrived w now_ms latest)
  Has-complete url es i j (rejected m) now_ms k v latest (shown, e, c) = absurd (cc e)

  Has-Brought :
      (url : Option String) (es : List (Event T)) (k : Key) (v : T)
      → Has (run url es) k v
      → Brought url es k v
  unfolding step
  Has-Brought url [] k v (shown, e, c) = absurd (cc shown)
  Has-Brought url (renders u ∷ es) k v h =
      stays _ (λ l. l)
        (Has-Brought url es k v ((Has-rerun (run url es) (with_url u (run url es)) k v).0 h))
  Has-Brought url (reload ∷ es) k v h =
      stays _ (λ l. l)
        (Has-Brought url es k v ((Has-rerun (run url es) (reloaded (run url es)) k v).0 h))
  Has-Brought url (settles i outcome now_ms ∷ es) k v h =
      elim (run-Settles url es i outcome now_ms) [
        | inl (j, latest, e) ↦ Has-complete url es i j outcome now_ms k v latest (rw e at h)
        | inr (stale, e) ↦
            stays _ (λ (j, (o, (older, f, l))). stale j o older f l)
              (Has-Brought url es k v (rw e at h))
      ]

  Brought-Has :
      (url : Option String) (es : List (Event T)) (k : Key) (v : T)
      → Brought url es k v
      → Has (run url es) k v
  unfolding step
  Brought-Has url _ k v (arrived {es = es} {i = i} w now_ms latest) =
      elim (run-Settles url es i (succeeded w) now_ms) [
        | inl (j, (o, f), e) ↦
            let same : j ≡ k = cc (o, latest.0) in rw e (refl, refl, ap some same)
        | inr (stale, e) ↦ let (o, (older, f, l)) = latest in absurd (stale k o older f l)
      ]
  Brought-Has url _ k v (stays {es = es} (renders u) other b) =
      (Has-rerun (run url es) (with_url u (run url es)) k v).1 (Brought-Has url es k v b)
  Brought-Has url _ k v (stays {es = es} reload other b) =
      (Has-rerun (run url es) (reloaded (run url es)) k v).1 (Brought-Has url es k v b)
  Brought-Has url _ k v (stays {es = es} (settles i outcome now_ms) other b) =
      elim (run-Settles url es i outcome now_ms) [
        | inl (j, latest, e) ↦ absurd (other (j, latest))
        | inr (stale, e) ↦ rw e (Brought-Has url es k v b)
      ]

  -- Whatever is rendered, reloaded and answered, in any order: a panel with a key is not refreshing,
  -- shows no error and shows a value exactly if the last of the fetches that settled while they
  -- were the latest one was a fetch for just that url and count of reloads, and came to that value.
  -- So an answer to a fetch that another one had replaced changes nothing of this.
  pub run-Brought :
      (url : Option String) (es : List (Event T)) (k : Key) (v : T)
      → key (run url es) ≡ some k
      → ((refreshing (run url es) ≡ false)
          × ((run url es).error ≡ none)
          × ((run url es).shown ≡ some v))
        ↔ Brought url es k v
  run-Brought url es k v has_key = (
    (λ (settled, no_error, shown).
        let pending : is_pending (some k) (run url es).completed_key ≡ false =
          ap (λ o. is_pending o (run url es).completed_key) (sym has_key) ∙ settled in
        Has-Brought url es k v (shown, no_error, (not_pending k _).0 pending)),
    (λ b.
        let (shown, no_error, done) = Brought-Has url es k v b in
        (
          ap (λ o. is_pending o (run url es).completed_key) has_key ∙ (not_pending k _).1 done,
          no_error,
          shown,
        )),
  )
