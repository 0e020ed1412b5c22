-- ===== src/Broker/Coordinator/Membership/Names.antt =====
-- The names of the members of a group of broker/src/coordinator.rs.
use gaffa.Prelude.{
  ℕ, zero, suc, ◌+◌, ◌%◌, ◌≡◌, refl, sym, ap, ◌∙◌, String, str_eq, Bool, true, false, none, some,
  List, [], ◌∷◌, map, arith, length, if◌then◌else◌, Bool-cases, Option-cases, inl, inr,
}
use gaffa.Prelude.Maps.{find, put, erase, member, remove, str-Lawful}
use gaffa.Protocol.Messages.{PartitionAssignment}
use gaffa.Broker.Coordinator.{
  GroupMember, ConsumerGroup, GroupCoordinator, add_member, give_at, assign_from, cleared,
  rebalance, group_or_new,
}
use gaffa.Broker.Coordinator.Assignment.{partitions_of, rebalance_some}

abbrev Entry : Type 0
Entry = String × GroupMember

-- Rebalancing keeps who is in the group.
names-give_at :
    (k : ℕ) (a : PartitionAssignment) (es : List Entry)
    → map (λ e. e.0) (give_at k a es) ≡ map (λ e. e.0) es
unfolding give_at
names-give_at k a [] = refl
names-give_at zero a (e ∷ es) = refl
names-give_at (suc k) a (e ∷ es) = ap (λ l. e.0 ∷ l) (names-give_at k a es)

names-assign_from :
    (idx n : ℕ) (parts : List PartitionAssignment) (es : List Entry)
    → map (λ e. e.0) (assign_from idx n parts es) ≡ map (λ e. e.0) es
unfolding assign_from
names-assign_from idx n [] es = refl
names-assign_from idx n (a ∷ parts) es =
    names-assign_from (idx + 1) n parts (give_at (idx % n) a es) ∙ names-give_at (idx % n) a es

names-cleared : (es : List Entry) → map (λ e. e.0) (cleared es) ≡ map (λ e. e.0) es
names-cleared [] = refl
names-cleared (e ∷ es) = ap (λ l. e.0 ∷ l) (names-cleared es)

abbrev pub names : ConsumerGroup → List String
names g = map (λ e. e.0) g.members

pub names-rebalance :
    (order : List String → List String) (g : ConsumerGroup) (tp : List (String × ℕ))
    → names (rebalance order g tp) ≡ names g
names-rebalance order g tp = go g.members refl
  where
    go : (es : List Entry) → g.members ≡ es → names (rebalance order g tp) ≡ names g
    go [] e = unfold rebalance in rw (rebalance, e) (ap (map (λ d. d.0)) e)
    go (d ∷ es) e =
        ap (map (λ d. d.0)) (rebalance_some order g tp (omega (arith, ap length e)))
        ∙ names-assign_from 0 (length g.members) (partitions_of order g tp) (cleared g.members)
        ∙ names-cleared g.members

pub names-erase :
    (id : String) (es : List Entry)
    → map (λ e. e.0) (erase str_eq id es) ≡ remove str_eq id (map (λ e. e.0) es)
names-erase id [] = refl
names-erase id (e ∷ es) = elim (Bool-cases (str_eq id e.0)) [
  | inl h ↦ rw (h) (names-erase id es)
  | inr h ↦ rw (h) (ap (λ l. e.0 ∷ l) (names-erase id es))
]

names-put :
    (x id : String) (m : GroupMember) (es : List Entry)
    → member str_eq x (map (λ e. e.0) (put str_eq id m es))
      ≡ (if str_eq x id then true else member str_eq x (map (λ e. e.0) es))
names-put x id m [] = elim (Bool-cases (str_eq x id)) [ inl h ↦ rw (h) | inr h ↦ rw (h) ]
names-put x id m (e ∷ es) = elim (Bool-cases (str_eq id e.0)) [
  | inl h ↦ elim (Bool-cases (str_eq x id)) [
    | inl q ↦ rw (h, q)
    | inr q ↦ rw (h, q, ap (str_eq x) (sym (str-Lawful.sound id e.0 h)) ∙ q)
  ]
  | inr h ↦ elim (Bool-cases (str_eq x e.0)) [
    | inl q ↦ rw (h, q) (sym (always (str_eq x id)))
    | inr q ↦ rw (h, q) (names-put x id m es)
  ]
]
  where
    always : (b : Bool) → (if b then true else true) ≡ true
    always true = refl
    always false = refl

-- The members of a group by name, none if there is no such group.
abbrev pub names_in : GroupCoordinator → String → List String
names_in c group_id = elim (find str_eq group_id c.groups) [ none ↦ [] | some g ↦ names g ]

pub names_in-some :
    (c : GroupCoordinator) (group_id : String) (g : ConsumerGroup)
    → find str_eq group_id c.groups ≡ some g
    → names_in c group_id ≡ names g
names_in-some c group_id g h = rw (names_in, h)

pub names-group_or_new :
    (c : GroupCoordinator) (group_id : String)
    → names (group_or_new c.groups group_id) ≡ names_in c group_id
names-group_or_new c group_id = elim (Option-cases (find str_eq group_id c.groups)) [
  | inl h ↦ rw (group_or_new, names_in, h)
  | inr (g, h) ↦ rw (group_or_new, names_in, h)
]

pub names-add_member :
    (x : String) (g : ConsumerGroup) (m : GroupMember)
    → member str_eq x (names (add_member g m))
      ≡ (if str_eq x m.member_id then true else member str_eq x (names g))
unfolding add_member
names-add_member x g m = names-put x m.member_id m g.members
