-- ===== src/Keeper/Reflector/Repeat.antt =====
-- What the tracker makes of a notification that comes a second time.
use Prim.Native.String.{String}
use refluo.Prelude.Maps.{
  map_get, map_set, map_get-All, map_set-All, map_get-map_set, set_has, string_eq,
}
use refluo.Prelude.{
  ℕ, ◌≡◌, refl, ◌∙◌, inl, inr, true, Option, none, some, List, [], ◌∷◌, ◌++◌, length, leb, or_else,
  arith, Bool-cases, All, keep-All, keep-All_id,
}
use refluo.Keeper.Reflector.{
  ReflectorNotification, QuorumResult, rejected_bad_signature, rejected_untrusted_verifier,
  duplicate, recorded, quorum_reached, already_resolved, PendingGroup, Groups, QuorumTracker,
  fresh_group, Crypto, is_live, prune_expired, confirm, record_live, record_notification,
}

-- What a result turns into when the same notification comes again.
abbrev pub repeated : QuorumResult → QuorumResult
repeated (recorded vs needed) = duplicate vs
repeated (quorum_reached event vs) = already_resolved vs
repeated rejected_bad_signature = rejected_bad_signature
repeated (rejected_untrusted_verifier v) = rejected_untrusted_verifier v
repeated (duplicate vs) = duplicate vs
repeated (already_resolved vs) = already_resolved vs

same_key : (k : String) → string_eq.beq k k ≡ true
same_key k = (string_eq.beq_iff k k).1 refl

set_has-snoc : (v : String) (vs : List String) → set_has v (vs ++ v ∷ []) ≡ true
unfolding set_has
set_has-snoc v [] = rw (same_key v)
set_has-snoc v (w ∷ vs) = ground (arith, set_has-snoc v vs)

map_get-set : (k : String) (g : PendingGroup) (m : Groups) → map_get k (map_set k g m) ≡ some g
map_get-set k g m = map_get-map_set k k g m ∙ rw (same_key k)

module _ (crypto : Crypto) (tracker : QuorumTracker) (now : ℕ) where
  abbrev Live : String × PendingGroup → Type 0
  Live entry = is_live crypto tracker now entry ≡ true

  prune-Live :
      (groups : Groups) → All Live groups → prune_expired crypto tracker now groups ≡ groups
  unfolding prune_expired
  prune-Live groups h = keep-All_id (is_live crypto tracker now) groups h

  confirm-again :
      (key verifier : String) (fresh group : PendingGroup) (groups : Groups)
      → All Live groups
      → Live (key, group)
      → or_else (map_get key groups) fresh ≡ group
      → let out = confirm crypto tracker key group verifier groups in
        All Live out.1
        × (confirm crypto tracker key (or_else (map_get key out.1) fresh) verifier out.1
            ≡ (repeated out.0, out.1))
  unfolding confirm
  confirm-again key verifier fresh group groups h l e = elim (Bool-cases group.resolved) [
    | inl done ↦ simp (done, e) (h, refl)
    | inr pending ↦ elim (Bool-cases (set_has verifier group.confirming_verifiers)) [
      | inl known ↦ simp (pending, known, e) (h, refl)
      | inr new ↦
          elim (Bool-cases
            (leb tracker.quorum_size (length (group.confirming_verifiers ++ verifier ∷ [])))) [
              | inl enough ↦
                  simp (pending, new, enough, map_get-set) (map_set-All Live key _ groups l h, refl)
              | inr few ↦
                  simp (pending, new, few, map_get-set, set_has-snoc)
                    (map_set-All Live key _ groups l h, refl)
            ]
    ]
  ]

  fresh-Live : (n : ReflectorNotification) (key : String) → Live (key, fresh_group n.event now)
  fresh-Live n key = ground arith

  record_live-again :
      (n : ReflectorNotification) (groups : Groups)
      → All Live groups
      → let out = record_live crypto tracker n now groups in
        All Live out.1 × (record_live crypto tracker n now out.1 ≡ (repeated out.0, out.1))
  unfolding record_live
  record_live-again n groups h = elim (Bool-cases (crypto.verify_notification_signature n)) [
    | inr bad ↦ simp bad (h, refl)
    | inl good ↦ elim (Bool-cases (set_has n.verifier tracker.trusted_verifiers)) [
      | inr strange ↦ simp (good, strange) (h, refl)
      | inl trusted ↦
          simp (good, trusted)
            (confirm-again (crypto.update_hash n.event) n.verifier (fresh_group n.event now)
              (or_else (map_get (crypto.update_hash n.event) groups) (fresh_group n.event now))
              groups h (found (map_get (crypto.update_hash n.event) groups) refl) refl)
    ]
  ]
    where
      found :
          (g : Option PendingGroup)
          → map_get (crypto.update_hash n.event) groups ≡ g
          → Live (crypto.update_hash n.event, or_else g (fresh_group n.event now))
      found none e = fresh-Live n (crypto.update_hash n.event)
      found (some g) e = map_get-All Live (crypto.update_hash n.event) groups h e

  -- In every state, a notification that is recorded a second time at the same time changes
  -- nothing: no verifier counts twice, a quorum is not reached again, and a rejection stands.
  pub record_notification-again :
      (n : ReflectorNotification) (groups : Groups)
      → let out = record_notification crypto tracker n now groups in
        record_notification crypto tracker n now out.1 ≡ (repeated out.0, out.1)
  unfolding record_notification
  record_notification-again n groups =
      let (live, same) = record_live-again n (prune_expired crypto tracker now groups) pruned in
      rw (prune-Live _ live) same
    where
      pruned : All Live (prune_expired crypto tracker now groups)
      pruned = unfold prune_expired in keep-All (is_live crypto tracker now) groups
