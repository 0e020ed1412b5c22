-- ===== src/Common/Action.antt =====
-- Calls that change a state and may fail, in the style of the source's `&mut self` methods that
-- return a `Result`: what was changed before an error stays changed.
use gaffa.Prelude.{◌≡◌, ap, List, [], ◌∷◌}
use gaffa.Common.Error.{GaffaError, Result, ok, err, panic}

abbrev pub Action : Type 0 → Type 0 → Type 0
Action S T = S → S × Result T

-- `?` of the source, on a call.
infixl 5 ◌>>=◌ ◌>>◌
abbrev pub ◌>>=◌ : {S T U : Type 0} → Action S T → (T → Action S U) → Action S U
◌>>=◌ call next s =
    let (s', outcome) = call s in
    elim outcome [ ok t ↦ next t s' | err problem ↦ (s', err problem) | panic ↦ (s', panic) ]

abbrev pub ◌>>◌ : {S T U : Type 0} → Action S T → Action S U → Action S U
call >> next = call >>= λ t. next

module _ {S : Type 0} where
  abbrev pub done : {T : Type 0} → T → Action S T
  done t s = (s, ok t)

  -- `Err(..)`
  abbrev pub fail : {T : Type 0} → GaffaError → Action S T
  fail problem s = (s, err problem)

  abbrev pub get : Action S S
  get s = (s, ok s)

  abbrev pub modify : (S → S) → Action S (Unit {0})
  modify change s = (change s, ok tt)

  -- A result that is at hand.
  abbrev pub lift : {T : Type 0} → Result T → Action S T
  lift outcome s = (s, outcome)

  -- A `for` loop whose body may return early with an error.
  abbrev pub for_each : {T : Type 0} → List T → (T → Action S (Unit {0})) → Action S (Unit {0})
  for_each [] body = done tt
  for_each (x ∷ xs) body = body x >>= λ t. for_each xs body

-- A call that succeeds hands its result on.
pub >>=-eq-ok :
    {S T U : Type 0} (call : Action S T) (next : T → Action S U) (s s' : S) (t : T)
    → call s ≡ (s', ok t)
    → (call >>= next) s ≡ next t s'
>>=-eq-ok {S} {T} {U} call next s s' t h = ap continue {x = call s} {y = (s', ok t)} h
  where
    continue : S × Result T → S × Result U
    continue r = elim r.1 [
      | ok t ↦ next t r.0
      | err problem ↦ (r.0, err problem)
      | panic ↦ (r.0, panic)
    ]
