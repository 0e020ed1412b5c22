-- ===== src/Client/Consumer/Counting.antt =====
-- The offset of a consumer of client/src/consumer.rs behind the records that it has got.
use mathlib.Core.Path.{subst}
use gaffa.Prelude.{
  ℕ, zero, suc, ◌+◌, ◌^◌, ◌<◌, ◌≡◌, sym, ap, ◌∙◌, none, some, List, [], ◌∷◌, ◌++◌, arith, length,
  take, drop, take_nil, Option, Bool, true, ◌&&◌, str_eq, ◌==◌,
}
use gaffa.Prelude.Maps.{put, Lawful, find-put_same, str-Lawful, nat-Lawful}
use gaffa.Protocol.Messages.{Record}
use gaffa.Client.Consumer.{Consumer, Key, key_eq, moved, behind_last, offset_or_zero}

-- The records have the offsets `n`, `n + 1`, ….
abbrev pub CountsFrom : ℕ → List Record → Type 0
CountsFrom n [] = Unit
CountsFrom n (r ∷ rs) = (r.offset ≡ n) × CountsFrom (n + 1) rs

pub CountsFrom-drop :
    (k n : ℕ) (rs : List Record) → CountsFrom n rs → CountsFrom (n + k) (drop k rs)
CountsFrom-drop zero n rs h = subst (λ m. CountsFrom m rs) (omega arith) h
CountsFrom-drop (suc k) n [] h = tt
CountsFrom-drop (suc k) n (r ∷ rs) h =
    subst (λ m. CountsFrom m (drop k rs)) {x = n + 1 + k} {y = n + suc k} (omega arith)
      (CountsFrom-drop k (n + 1) rs h.1)

pub CountsFrom-take : (k n : ℕ) (rs : List Record) → CountsFrom n rs → CountsFrom n (take k rs)
CountsFrom-take zero n rs h = tt
CountsFrom-take (suc k) n [] h = tt
CountsFrom-take (suc k) n (r ∷ rs) h = (h.0, CountsFrom-take k (n + 1) rs h.1)

behind-last :
    (n : ℕ) (r : Record) (rs : List Record)
    → CountsFrom n (r ∷ rs)
    → n + length (r ∷ rs) < 2 ^ 64
    → behind_last (r ∷ rs) ≡ some (n + length (r ∷ rs))
unfolding behind_last
behind-last n r [] h b = ap some (ground (arith, h.0))
behind-last n r (q ∷ rs) h b = behind-last (n + 1) q rs h.1 (omega arith) ∙ ap some (omega arith)

pub take-append_take :
    (a b : ℕ) (rs : List Record)
    → take a rs ++ take b (drop (length (take a rs)) rs) ≡ take (a + b) rs
take-append_take zero b rs = ap (λ n. take n rs) (omega arith)
take-append_take (suc a) b [] = take_nil b ∙ sym (take_nil (suc a + b))
take-append_take (suc a) b (r ∷ rs) =
    ap (λ l. r ∷ l) (take-append_take a b rs)
    ∙ ap (λ n. take n (r ∷ rs)) {x = suc (a + b)} {y = suc a + b} (omega arith)

pub key-Lawful : Lawful key_eq
key-Lawful = record {
  sound = λ a b h.
      let (t, p) = both (str_eq a.0 b.0) (a.1 == b.1) h in
      ap (λ x. (x, a.1)) (str-Lawful.sound a.0 b.0 t)
      ∙ ap (λ x. (b.0, x)) (nat-Lawful.sound a.1 b.1 p);
  complete = λ a. rw (str-Lawful.complete a.0, nat-Lawful.complete a.1);
}
  where
    both : (x y : Bool) → (x && y) ≡ true → (x ≡ true) × (y ≡ true)
    both x y h = ground arith

module _ (k : Key) (c : Consumer) where
  abbrev at_offset : Option ℕ → ℕ
  at_offset none = 0
  at_offset (some n) = n

  moved_some :
      (o : ℕ) (r : Record) (rs : List Record)
      → CountsFrom o (r ∷ rs)
      → o + length (r ∷ rs) < 2 ^ 64
      → moved k (r ∷ rs) c ≡ record c { offsets = put key_eq k (o + length (r ∷ rs)) c.offsets }
  moved_some o r rs h b = rw (moved, behind-last o r rs h b)

  -- A fetch moves the offset behind the records that it has brought.
  pub moved_offset :
      (o : ℕ) (rs : List Record)
      → offset_or_zero c k ≡ o
      → CountsFrom o rs
      → o + length rs < 2 ^ 64
      → offset_or_zero (moved k rs c) k ≡ o + length rs
  unfolding behind_last
  moved_offset o [] e h b = e ∙ omega arith
  moved_offset o (r ∷ rs) e h b =
      ap (λ d. offset_or_zero d k) (moved_some o r rs h b)
      ∙ ap at_offset (find-put_same key_eq key-Lawful k (o + length (r ∷ rs)) c.offsets)

  pub moved_subscriptions : (rs : List Record) → (moved k rs c).subscriptions ≡ c.subscriptions
  moved_subscriptions rs = ground arith
