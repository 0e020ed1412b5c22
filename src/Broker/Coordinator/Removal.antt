-- ===== src/Broker/Coordinator/Removal.antt =====
-- What is left of a group of broker/src/coordinator.rs when members are taken out.
use gaffa.Prelude.{
  ◌≡◌, refl, ap, String, str_eq, true, false, List, [], ◌∷◌, arith, Bool-cases, All, inl, inr,
}
use gaffa.Prelude.Maps.{erase, member, str-Lawful}
use gaffa.Broker.Coordinator.{GroupMember, ConsumerGroup, remove_member, remove_all}

abbrev Entry : Type 0
Entry = String × GroupMember

pub listed : (k : String) (ks : List String) → member str_eq k (k ∷ ks) ≡ true
listed k ks = rw (str-Lawful.complete k)

pub shorter :
    (x k : String) (ks : List String)
    → member str_eq x (k ∷ ks) ≡ false
    → member str_eq x ks ≡ false
shorter x k ks h = ground arith

turned : (k x : String) → str_eq k x ≡ false → str_eq x k ≡ false
turned k x h = elim (Bool-cases (str_eq x k)) [
  | inl q ↦ absurd (cc (h, str-Lawful.complete k, ap (str_eq k) (str-Lawful.sound x k q)))
  | inr q ↦ q
]

All-erase :
    (P : Entry → Type 0) (k : String) (es : List Entry) → All P es → All P (erase str_eq k es)
All-erase P k [] h = tt
All-erase P k (e ∷ es) (p, h) = elim (Bool-cases (str_eq k e.0)) [
  | inl q ↦ rw (q) (All-erase P k es h)
  | inr q ↦ rw (q) (p, All-erase P k es h)
]

erased : (k : String) (es : List Entry) → All (λ e. str_eq e.0 k ≡ false) (erase str_eq k es)
erased k [] = tt
erased k (e ∷ es) = elim (Bool-cases (str_eq k e.0)) [
  | inl q ↦ rw (q) (erased k es)
  | inr q ↦ rw (q) (turned k e.0 q, erased k es)
]

pub All-remove_all :
    (P : Entry → Type 0) (ids : List String) (g : ConsumerGroup)
    → All P g.members
    → All P (remove_all ids g).members
unfolding remove_all remove_member
All-remove_all P [] g h = h
All-remove_all P (id ∷ ids) g h =
    All-remove_all P ids (remove_member g id).0 (All-erase P id g.members h)

pub All-both :
    (P Q R : Entry → Type 0) (es : List Entry)
    → ((e : Entry) → P e → Q e → R e)
    → All P es
    → All Q es
    → All R es
All-both P Q R [] f p q = tt
All-both P Q R (e ∷ es) f (p, ps) (q, qs) = (f e p q, All-both P Q R es f ps qs)

absent :
    (x k : String) (ks : List String)
    → str_eq x k ≡ false
    → member str_eq x ks ≡ false
    → member str_eq x (k ∷ ks) ≡ false
absent x k ks h l = ground arith

none_left : (ids : List String) (es : List Entry) → All (λ e. member str_eq e.0 [] ≡ false) es
none_left ids [] = tt
none_left ids (e ∷ es) = (refl, none_left ids es)

pub All-removed :
    (ids : List String) (g : ConsumerGroup)
    → All (λ e. member str_eq e.0 ids ≡ false) (remove_all ids g).members
unfolding remove_all remove_member
All-removed [] g = none_left [] g.members
All-removed (id ∷ ids) g =
    All-both (λ e. str_eq e.0 id ≡ false) (λ e. member str_eq e.0 ids ≡ false)
      (λ e. member str_eq e.0 (id ∷ ids) ≡ false) (remove_all ids (remove_member g id).0).members
      (λ e p q. absent e.0 id ids p q)
      (All-remove_all (λ e. str_eq e.0 id ≡ false) ids (remove_member g id).0 (erased id g.members))
      (All-removed ids (remove_member g id).0)
