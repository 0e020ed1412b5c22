-- ===== src/Broker/OffsetManager/Text/Numbers.antt =====
-- The decimal numbers that broker/src/offset_manager.rs writes are read back.
use Prim.Native.Char.{Char, code}
use Prim.Native.String.{[] as nil, ◌∷◌ as ◌∷∷◌}
use text.Mathlib.TextLemmas.{nil-append, cons-append}
use mathlib.Core.Path.{subst}
use native.Mathlib.Nat.{div-add-mod, mod-lt, mod-eq_of_lt}
use gaffa.Prelude.{
  ℕ, zero, suc, ◌+◌, ◌-◌, ◌*◌, ◌/◌, ◌%◌, ◌<◌, ◌≤◌, ◌<>◌, ◌≡◌, refl, sym, ap, ◌∙◌, String, true,
  false, Option, none, some, arith, ltb, ltb→lt, leb, ◌==◌, Bool-cases, ◌⊎◌, inl, inr,
}
use gaffa.Prelude.Decimal.{show, show_loop, digit}
use gaffa.Broker.OffsetManager.Text.{split_once, parse, parse_digits}

-- No character of the text has this number.
abbrev pub Lacks : ℕ → String → Type 0
Lacks n nil = Unit
Lacks n (c ∷∷ s) = ((code c == n) ≡ false) × Lacks n s

pub Lacks-append : (n : ℕ) (s t : String) → Lacks n s → Lacks n t → Lacks n (s <> t)
Lacks-append n nil t h k = subst (Lacks n) (sym (nil-append t)) k
Lacks-append n (c ∷∷ s) t h k =
    subst (Lacks n) (sym (cons-append c s t)) (h.0, Lacks-append n s t h.1 k)

-- A character in front that is the one looked for.
without :
    (c : Char) (t : String) (o : Option (String × String))
    → split_once c t ≡ o
    → split_once c (c ∷∷ t) ≡ some ("", t)
unfolding split_once
without c t none e = rw (split_once, e) (ground arith)
without c t (some (before, after)) e = rw (split_once, e) (ground arith)

pub split_once-append :
    (c : Char) (s t : String) → Lacks (code c) s → split_once c (s <> (c ∷∷ t)) ≡ some (s, t)
unfolding split_once
split_once-append c nil t h =
    ap (split_once c) (nil-append (c ∷∷ t)) ∙ without c t (split_once c t) refl
split_once-append c (x ∷∷ s) t h =
    ap (split_once c) (cons-append x s (c ∷∷ t)) ∙ rw (split_once, split_once-append c s t h.1, h.0)

code-digit : (n : ℕ) → n < 10 → code (digit n) ≡ 48 + n
code-digit zero h = refl
code-digit (suc zero) h = refl
code-digit (suc (suc zero)) h = refl
code-digit (suc (suc (suc zero))) h = refl
code-digit (suc (suc (suc (suc zero)))) h = refl
code-digit (suc (suc (suc (suc (suc zero))))) h = refl
code-digit (suc (suc (suc (suc (suc (suc zero)))))) h = refl
code-digit (suc (suc (suc (suc (suc (suc (suc zero))))))) h = refl
code-digit (suc (suc (suc (suc (suc (suc (suc (suc zero)))))))) h = refl
code-digit (suc (suc (suc (suc (suc (suc (suc (suc (suc zero))))))))) h = refl
code-digit (suc (suc (suc (suc (suc (suc (suc (suc (suc (suc n)))))))))) h = absurd (omega arith)

parse_digits-digit :
    (bound n d : ℕ) (rest : String)
    → d < 10
    → n * 10 + d < bound
    → parse_digits bound n (digit d ∷∷ rest) ≡ parse_digits bound (n * 10 + d) rest
unfolding parse_digits
parse_digits-digit bound n d rest h b =
    let low : leb 48 (48 + d) ≡ true = ground arith in
    let high : leb (48 + d) 57 ≡ true = ground arith in
    let value : 48 + d - 48 ≡ d = omega arith in
    let small : ltb (n * 10 + d) bound ≡ true = ground arith in
    rw (parse_digits, code-digit d h, low, high, value, small)

not_ltb : (n : ℕ) → ltb n 10 ≡ false → 10 ≤ n
not_ltb n h = ground arith

-- A number in decimal digits reads as itself.
parse_digits-show_loop :
    (bound fuel n : ℕ) (rest : String)
    → n < fuel
    → n < bound
    → parse_digits bound 0 (show_loop fuel n rest) ≡ parse_digits bound n rest
unfolding parse_digits show_loop
parse_digits-show_loop bound zero n rest f b = absurd (omega arith)
parse_digits-show_loop bound (suc fuel) n rest f b =
    let d = n % 10 in
    let q = n / 10 in
    let e : q * 10 + d ≡ n = omega (arith, div-add-mod n 10) in
    let l : d < 10 = mod-lt n (omega arith) in
    elim (Bool-cases (ltb n 10)) [
      | inl h ↦ rw (h) (
          parse_digits-digit bound 0 d rest l (omega (arith, e, b))
          ∙ ap (λ k. parse_digits bound k rest) (omega (arith, mod-eq_of_lt (ltb→lt n 10 h))))
      | inr h ↦ rw (h) (
          parse_digits-show_loop bound fuel q (digit d ∷∷ rest) (omega (arith, e, f, not_ltb n h))
            (omega (arith, e, b))
          ∙ parse_digits-digit bound q d rest l (omega (arith, e))
          ∙ ap (λ k. parse_digits bound k rest) e)
    ]

-- The first character of a decimal text is a digit.
show_loop-first :
    (fuel n : ℕ) (rest : String)
    → (d : ℕ) × (t : String) × (d < 10) × (show_loop (suc fuel) n rest ≡ digit d ∷∷ t)
unfolding show_loop
show_loop-first zero n rest = (
  n % 10,
  rest,
  mod-lt n (omega arith),
  elim (Bool-cases (ltb n 10)) [ inl a ↦ rw (a) | inr a ↦ rw (a) ],
)
show_loop-first (suc fuel) n rest = elim (Bool-cases (ltb n 10)) [
  | inl a ↦ (n % 10, rest, mod-lt n (omega arith), rw (a))
  | inr a ↦
      let (d, t, l, e) = show_loop-first fuel (n / 10) (digit (n % 10) ∷∷ rest) in
      (d, t, l, rw (a) e)
]

Lacks-show_loop :
    (k fuel n : ℕ) (rest : String)
    → ((d : ℕ) → d < 10 → (code (digit d) == k) ≡ false)
    → Lacks k rest
    → Lacks k (show_loop fuel n rest)
unfolding show_loop
Lacks-show_loop k zero n rest h l = l
Lacks-show_loop k (suc fuel) n rest h l = elim (Bool-cases (ltb n 10)) [
  | inl a ↦ rw (a) (h (n % 10) (mod-lt n (omega arith)), l)
  | inr a ↦ rw (a) (
      Lacks-show_loop k fuel (n / 10) (digit (n % 10) ∷∷ rest) h
        (h (n % 10) (mod-lt n (omega arith)), l))
]

read_end : (bound n : ℕ) → parse_digits bound n nil ≡ some n
unfolding parse_digits
read_end bound n = refl

parse_first :
    (bound : ℕ) (c : Char) (t : String)
    → (code c == 43) ≡ false
    → parse bound (c ∷∷ t) ≡ parse_digits bound 0 (c ∷∷ t)
unfolding parse
parse_first bound c nil h = refl
parse_first bound c (x ∷∷ t) h = rw (h)

digit_is_not : (k : ℕ) → k < 48 ⊎ 57 < k → (d : ℕ) → d < 10 → (code (digit d) == k) ≡ false
digit_is_not k (inl h) d l = rw (code-digit d l) (ground arith)
digit_is_not k (inr h) d l = rw (code-digit d l) (ground arith)

pub parse-show : (bound n : ℕ) → n < bound → parse bound (show n) ≡ some n
unfolding show
parse-show bound n h =
    let (d, t, l, e) = show_loop-first n n nil in
    ap (parse bound) e
    ∙ parse_first bound (digit d) t (digit_is_not 43 (inl (omega arith)) d l)
    ∙ sym (ap (parse_digits bound 0) e)
    ∙ parse_digits-show_loop bound (suc n) n nil (omega arith) h
    ∙ read_end bound n

pub Lacks-show : (k n : ℕ) → k < 48 ⊎ 57 < k → Lacks k (show n)
unfolding show
Lacks-show k n h = Lacks-show_loop k (suc n) n nil (digit_is_not k h) tt
