-- ===== src/Keeper/Reflector/Quorum.antt =====
-- What a quorum rests on, over any sequence of notifications.
use Prim.Native.String.{String}
use refluo.Prelude.Result.{ok}
use refluo.Prelude.Maps.{map_get, map_get-All, map_set-All, set_has, string_eq}
use refluo.Prelude.{
  ℕ, ◌≤◌, ◌<◌, ◌≡◌, refl, ◌⊎◌, inl, inr, true, false, Option, none, some, List, [], ◌∷◌, ◌++◌,
  length, length-append, leb, or_else, arith, Bool-cases, leb→le, All, All-append, All-keep,
  All-mono,
}
use refluo.Keeper.Reflector.{
  ReflectorNotification, QuorumResult, rejected_bad_signature, rejected_untrusted_verifier,
  duplicate, recorded, quorum_reached, already_resolved, PendingGroup, Groups, QuorumTracker,
  new_tracker, fresh_group, Crypto, is_live, prune_expired, confirm, record_live,
  record_notification,
}

-- No name stands twice.
pub data IsDistinct : List String → Type 0 where
  empty : IsDistinct []
  another :
      (vs : List String) (v : String)
      → IsDistinct vs
      → set_has v vs ≡ false
      → IsDistinct (vs ++ v ∷ [])

-- The notifications received so far, each with its time, the newest first.
abbrev pub History : Type 0
History = List (ReflectorNotification × ℕ)

module _ (crypto : Crypto) where
  -- A verifier has sent a notification of an update with this hash, and its signature verifies.
  abbrev pub Sent : History → String → String → Type 0
  Sent [] key verifier = ⊥
  Sent ((n, now) ∷ history) key verifier =
      ((crypto.verify_notification_signature n ≡ true)
        × (crypto.update_hash n.event ≡ key)
        × (n.verifier ≡ verifier))
      ⊎ Sent history key verifier

module _ (crypto : Crypto) (tracker : QuorumTracker) where
  abbrev pub Attested : History → String → String → Type 0
  Attested history key verifier =
      (set_has verifier tracker.trusted_verifiers ≡ true) × Sent crypto history key verifier

  -- A group of the tracker, under its key, behind a history.
  pub record IsSound (history : History) (entry : String × PendingGroup) : Type 0 where
    pub keyed : crypto.update_hash entry.1.event ≡ entry.0
    pub distinct : IsDistinct entry.1.confirming_verifiers
    pub attested : All (Attested history entry.0) entry.1.confirming_verifiers
    pub below : entry.1.resolved ≡ false → length entry.1.confirming_verifiers < tracker.quorum_size

  -- The states that the tracker comes to.
  pub data Reaches : History → Groups → Type 0 where
    start : Reaches [] []
    step :
        {history : History} {groups : Groups} (n : ReflectorNotification) (now : ℕ)
        → Reaches history groups
        → Reaches ((n, now) ∷ history) (record_notification crypto tracker n now groups).1

  -- What a result rests on: a quorum, on as many different trusted verifiers as it needs.
  abbrev pub IsBacked : History → String → QuorumResult → Type 0
  IsBacked history key (quorum_reached event vs) =
      (crypto.update_hash event ≡ key)
      × IsDistinct vs
      × (length vs ≡ tracker.quorum_size)
      × All (Attested history key) vs
  IsBacked history key rejected_bad_signature = Unit
  IsBacked history key (rejected_untrusted_verifier v) = Unit
  IsBacked history key (duplicate vs) = Unit
  IsBacked history key (recorded vs needed) = Unit
  IsBacked history key (already_resolved vs) = Unit

  module _ (n : ReflectorNotification) (now : ℕ) (history : History) where
    abbrev later : History
    later = (n, now) ∷ history

    IsSound-later : (entry : String × PendingGroup) → IsSound history entry → IsSound later entry
    IsSound-later entry s = record {
      keyed = s.keyed;
      distinct = s.distinct;
      attested =
          All-mono (Attested history entry.0) (Attested later entry.0) (λ v (t, h). (t, inr h))
            entry.1.confirming_verifiers s.attested;
      below = s.below;
    }

    confirm-IsSound :
        (key : String) (group : PendingGroup) (groups : Groups)
        → crypto.verify_notification_signature n ≡ true
        → crypto.update_hash n.event ≡ key
        → set_has n.verifier tracker.trusted_verifiers ≡ true
        → IsSound later (key, group)
        → All (IsSound later) groups
        → All (IsSound later) (confirm crypto tracker key group n.verifier groups).1
          × IsBacked later key (confirm crypto tracker key group n.verifier groups).0
    unfolding confirm
    confirm-IsSound key group groups v k t s h = elim (Bool-cases group.resolved) [
      | inl done ↦ simp done (h, tt)
      | inr unresolved ↦ elim (Bool-cases (set_has n.verifier group.confirming_verifiers)) [
        | inl known ↦ simp (unresolved, known) (h, tt)
        | inr new ↦
            elim (Bool-cases
              (leb tracker.quorum_size (length (group.confirming_verifiers ++ n.verifier ∷ [])))) [
                | inl enough ↦
                    simp (unresolved, new, enough)
                      (
                        map_set-All (IsSound later) key _ groups
                            (record {
                              keyed = s.keyed;
                              distinct = longer new;
                              attested = all_attested;
                              below = λ e. absurd (ground arith);
                            })
                            h,
                        (s.keyed, longer new, exact unresolved (leb→le _ _ enough), all_attested),
                      )
                | inr few ↦
                    simp (unresolved, new, few)
                      (
                        map_set-All (IsSound later) key _ groups
                            (record {
                              keyed = s.keyed;
                              distinct = longer new;
                              attested = all_attested;
                              below = λ e. ground arith;
                            })
                            h,
                        tt,
                      )
              ]
      ]
    ]
      where
        longer :
            set_has n.verifier group.confirming_verifiers ≡ false
            → IsDistinct (group.confirming_verifiers ++ n.verifier ∷ [])
        longer new = another group.confirming_verifiers n.verifier s.distinct new

        all_attested : All (Attested later key) (group.confirming_verifiers ++ n.verifier ∷ [])
        all_attested =
            All-append (Attested later key) group.confirming_verifiers (n.verifier ∷ []) s.attested
              ((t, inl (v, k, refl)), tt)

        exact :
            group.resolved ≡ false
            → tracker.quorum_size ≤ length (group.confirming_verifiers ++ n.verifier ∷ [])
            → length (group.confirming_verifiers ++ n.verifier ∷ []) ≡ tracker.quorum_size
        exact unresolved h =
            omega (
              arith,
              s.below unresolved,
              length-append group.confirming_verifiers (n.verifier ∷ []),
            )

    fresh-IsSound :
        0 < tracker.quorum_size
        → IsSound later (crypto.update_hash n.event, fresh_group n.event now)
    fresh-IsSound q = record { keyed = refl; distinct = empty; attested = tt; below = λ e. q }

    record_live-IsSound :
        (groups : Groups)
        → 0 < tracker.quorum_size
        → All (IsSound later) groups
        → All (IsSound later) (record_live crypto tracker n now groups).1
          × IsBacked later (crypto.update_hash n.event) (record_live crypto tracker n now groups).0
    unfolding record_live
    record_live-IsSound groups q h = elim (Bool-cases (crypto.verify_notification_signature n)) [
      | inr bad ↦ simp bad (h, tt)
      | inl good ↦ elim (Bool-cases (set_has n.verifier tracker.trusted_verifiers)) [
        | inr strange ↦ simp (good, strange) (h, tt)
        | inl trusted ↦
            simp (good, trusted)
              (confirm-IsSound (crypto.update_hash n.event) _ groups good refl trusted
                (found (map_get (crypto.update_hash n.event) groups) refl) h)
      ]
    ]
      where
        found :
            (g : Option PendingGroup)
            → map_get (crypto.update_hash n.event) groups ≡ g
            → IsSound later (crypto.update_hash n.event, or_else g (fresh_group n.event now))
        found none e = fresh-IsSound q
        found (some g) e = map_get-All (IsSound later) (crypto.update_hash n.event) groups h e

    record-IsSound :
        (groups : Groups)
        → 0 < tracker.quorum_size
        → All (IsSound history) groups
        → All (IsSound later) (record_notification crypto tracker n now groups).1
          × IsBacked later
              (crypto.update_hash n.event)
              (record_notification crypto tracker n now groups).0
    unfolding record_notification prune_expired
    record-IsSound groups q h = record_live-IsSound (prune_expired crypto tracker now groups) q (
        All-keep (IsSound later) (is_live crypto tracker now) groups
          (All-mono (IsSound history) (IsSound later) IsSound-later groups h))

  Reaches-IsSound :
      {history : History} {groups : Groups}
      → 0 < tracker.quorum_size
      → Reaches history groups
      → All (IsSound history) groups
  Reaches-IsSound q start = tt
  Reaches-IsSound q (step {history = history} {groups = groups} n now r) =
      (record-IsSound n now history groups q (Reaches-IsSound q r)).0

  new_tracker-positive :
      (listed : List String) (quorum_size window_seconds : ℕ)
      → new_tracker listed quorum_size window_seconds ≡ ok tracker
      → 0 < tracker.quorum_size
  unfolding new_tracker
  new_tracker-positive listed quorum_size window_seconds e = ground arith

  -- Behind any sequence of notifications that a tracker built by the constructor has recorded, at
  -- whatever times: if the next one reaches a quorum, the event handed on has that notification's
  -- hash, and it is confirmed by exactly as many different verifiers as the quorum asks for, all
  -- trusted and each the sender of a notification of that hash whose signature verified.
  pub record_notification-IsBacked :
      (listed : List String) (quorum_size window_seconds : ℕ) {history : History} {groups : Groups}
      (n : ReflectorNotification) (now : ℕ)
      → new_tracker listed quorum_size window_seconds ≡ ok tracker
      → Reaches history groups
      → IsBacked
          ((n, now) ∷ history)
          (crypto.update_hash n.event)
          (record_notification crypto tracker n now groups).0
  record_notification-IsBacked listed quorum_size window_seconds {history} {groups} n now e r =
      let q = new_tracker-positive listed quorum_size window_seconds e in
      (record-IsSound n now history groups q (Reaches-IsSound q r)).1
