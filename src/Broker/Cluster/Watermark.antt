-- ===== src/Broker/Cluster/Watermark.antt =====
-- The high watermark and the in-sync replicas of broker/src/cluster.rs after a replica reports.
mod Minimum
use gaffa.Prelude.{
  ℕ, ◌≤◌, ◌≡◌, refl, sym, ap, ◌∙◌, Bool, true, false, none, some, List, [], ◌∷◌, arith, leb, ◌==◌,
  min, add64, if◌then◌else◌, Bool-cases, Option-cases, ==_iff, le_cases, ◌⊎◌, inl, inr,
}
use mathlib.Core.Option.{some-injective}
use mathlib.Core.Path.{subst}
use gaffa.Prelude.Maps.{
  find, put, member, insert, remove, nat-Lawful, find-put_same, member-insert_same,
  member-insert_other, member-remove_same, member-remove_other,
}
use gaffa.Broker.Cluster.{
  PartitionReplicaState, get_or, min_offset, update_high_watermark, update_offset,
}
use gaffa.Broker.Cluster.Watermark.Minimum.{min_offset-IsMin}

-- Every in-sync replica with a known offset is at the high watermark or beyond it.
abbrev pub IsWatermark : PartitionReplicaState → Type 0
IsWatermark s =
    (id o : ℕ)
    → member ◌==◌ id s.isr ≡ true
    → find ◌==◌ id s.replica_offsets ≡ some o
    → s.high_watermark ≤ o

-- Some in-sync replica is at the high watermark.
abbrev pub IsReached : PartitionReplicaState → Type 0
IsReached s =
    (id : ℕ) × (member ◌==◌ id s.isr ≡ true)
    × (find ◌==◌ id s.replica_offsets ≡ some s.high_watermark)

-- The update changes nothing but the watermark.
kept :
    (s : PartitionReplicaState)
    → ((update_high_watermark s).isr ≡ s.isr)
      × ((update_high_watermark s).replica_offsets ≡ s.replica_offsets)
unfolding update_high_watermark
kept s = (ground arith, ground arith)

watermark :
    (s : PartitionReplicaState) (id r : ℕ) (ids : List ℕ)
    → s.isr ≡ id ∷ ids
    → min_offset s.replica_offsets (id ∷ ids) ≡ some r
    → (update_high_watermark s).high_watermark ≡ r
unfolding update_high_watermark
watermark s id r ids e h = rw (update_high_watermark, e, h)

-- The update makes the high watermark the smallest offset of the in-sync replicas.
update_high_watermark-Both :
    (s : PartitionReplicaState)
    → IsWatermark (update_high_watermark s)
      × ((id o : ℕ)
          → member ◌==◌ id s.isr ≡ true
          → find ◌==◌ id s.replica_offsets ≡ some o
          → IsReached (update_high_watermark s))
update_high_watermark-Both s = go s.isr refl
  where
    go :
        (isr : List ℕ)
        → s.isr ≡ isr
        → IsWatermark (update_high_watermark s)
          × ((id o : ℕ)
              → member ◌==◌ id s.isr ≡ true
              → find ◌==◌ id s.replica_offsets ≡ some o
              → IsReached (update_high_watermark s))
    go [] e = (
      λ id o m h. absurd (cc (ap (member ◌==◌ id) ((kept s).0 ∙ e), m)),
      λ id o m h. absurd (cc (ap (member ◌==◌ id) e, m)),
    )
    go (x ∷ xs) e = elim (min_offset-IsMin s.replica_offsets (x ∷ xs)) [
      | inl (q, all) ↦ (
        λ id o m h. absurd (
            cc (
              all id (sym (ap (member ◌==◌ id) ((kept s).0 ∙ e)) ∙ m),
              sym (ap (find ◌==◌ id) (kept s).1) ∙ h,
            )),
        λ id o m h. absurd (cc (all id (sym (ap (member ◌==◌ id) e) ∙ m), h)),
      )
      | inr (r, q, (below, (j, m, at))) ↦ (
        λ id o n h. omega (
          arith,
          watermark s x r xs e q,
          below id o (sym (ap (member ◌==◌ id) ((kept s).0 ∙ e)) ∙ n)
              (sym (ap (find ◌==◌ id) (kept s).1) ∙ h),
        ),
        λ id o n h. (
          j,
          ap (member ◌==◌ j) ((kept s).0 ∙ e) ∙ m,
          ap (find ◌==◌ j) (kept s).1 ∙ at ∙ ap some (sym (watermark s x r xs e q)),
        ),
      )
    ]

module _ (s : PartitionReplicaState) (broker_id offset lag_threshold : ℕ) where
  -- Whether the replica is near enough to the leader, by the offsets after the report.
  abbrev pub near : Bool
  near =
      leb (get_or 0 (find ◌==◌ s.leader (put ◌==◌ broker_id offset s.replica_offsets)))
        (add64 offset lag_threshold)

  abbrev reported : PartitionReplicaState
  reported = record s {
    replica_offsets = put ◌==◌ broker_id offset s.replica_offsets;
    isr = if near then insert ◌==◌ broker_id s.isr else remove ◌==◌ broker_id s.isr;
  }

  update_offset_lem :
      update_offset s broker_id offset lag_threshold ≡ update_high_watermark reported
  update_offset_lem = unfold update_offset in refl

  -- After a report every in-sync replica with a known offset is at the high watermark or beyond it,
  -- and the watermark is the offset of one of them when the reporting replica is in sync.
  pub update_offset-IsWatermark :
      IsWatermark (update_offset s broker_id offset lag_threshold)
      × ((near ≡ false) ⊎ IsReached (update_offset s broker_id offset lag_threshold))
  update_offset-IsWatermark =
      let (holds, reached) = update_high_watermark-Both reported in
      (
        subst IsWatermark (sym update_offset_lem) holds,
        elim (Bool-cases near) [
          | inr n ↦ inl n
          | inl n ↦ inr (
              subst IsReached (sym update_offset_lem) (
                reached broker_id offset (in_sync n)
                  (find-put_same ◌==◌ nat-Lawful broker_id offset s.replica_offsets)))
        ],
      )
    where
      in_sync : near ≡ true → member ◌==◌ broker_id reported.isr ≡ true
      in_sync n = rw (n) (member-insert_same ◌==◌ nat-Lawful broker_id s.isr)

  -- A report decides for the reporting replica alone whether it is in sync, by its own lag, and
  -- leaves the others in or out as they were: also when it is the leader's and puts them behind.
  pub update_offset-member :
      (id : ℕ)
      → member ◌==◌ id (update_offset s broker_id offset lag_threshold).isr
        ≡ (if id == broker_id then near else member ◌==◌ id s.isr)
  update_offset-member id =
      ap (λ t. member ◌==◌ id t.isr) update_offset_lem
      ∙ ap (member ◌==◌ id) (kept reported).0
      ∙ (elim (Bool-cases (id == broker_id)) [
        | inl same ↦
            ap (λ j. member ◌==◌ j reported.isr) ((==_iff id broker_id).0 same)
            ∙ its_own (Bool-cases near)
            ∙ ap (λ b. if b then near else member ◌==◌ id s.isr) (sym same)
        | inr differs ↦
            others differs (Bool-cases near)
            ∙ ap (λ b. if b then near else member ◌==◌ id s.isr) (sym differs)
      ])
    where
      its_own : (near ≡ true) ⊎ (near ≡ false) → member ◌==◌ broker_id reported.isr ≡ near
      its_own (inl n) = rw (n) (member-insert_same ◌==◌ nat-Lawful broker_id s.isr)
      its_own (inr n) = rw (n) (member-remove_same ◌==◌ nat-Lawful broker_id s.isr)

      others :
          (id == broker_id) ≡ false
          → (near ≡ true) ⊎ (near ≡ false)
          → member ◌==◌ id reported.isr ≡ member ◌==◌ id s.isr
      others d (inl n) = rw (n) (member-insert_other ◌==◌ nat-Lawful broker_id id s.isr d)
      others d (inr n) = rw (n) (member-remove_other ◌==◌ nat-Lawful broker_id id s.isr d)
