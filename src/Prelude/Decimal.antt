-- ===== src/Prelude/Decimal.antt =====
-- Decimal text: what `{}` prints of an unsigned number.
use Prim.Native.Nat.{ℕ, zero, suc, ◌/◌, ◌%◌}
use Prim.Native.Char.{Char, char}
use Prim.Native.String.{String}
use mathlib.Core.Path.{◌≡◌, refl}
use gaffa.Prelude.Tests.{ltb, if◌then◌else◌}

-- The character of a digit; the last one stands for every number from 9 on.
abbrev pub digit : ℕ → Char
digit zero = char 48 tt
digit (suc zero) = char 49 tt
digit (suc (suc zero)) = char 50 tt
digit (suc (suc (suc zero))) = char 51 tt
digit (suc (suc (suc (suc zero)))) = char 52 tt
digit (suc (suc (suc (suc (suc zero))))) = char 53 tt
digit (suc (suc (suc (suc (suc (suc zero)))))) = char 54 tt
digit (suc (suc (suc (suc (suc (suc (suc zero))))))) = char 55 tt
digit (suc (suc (suc (suc (suc (suc (suc (suc zero)))))))) = char 56 tt
digit (suc (suc (suc (suc (suc (suc (suc (suc (suc n))))))))) = char 57 tt

-- Fuel `suc n` is enough, since each round divides by ten.
unfoldable pub show_loop : ℕ → ℕ → String → String
show_loop zero n rest = rest
show_loop (suc fuel) n rest =
    let text = String.◌∷◌ (digit (n % 10)) rest in
    let more = show_loop fuel (n / 10) text in if ltb n 10 then text else more

unfoldable pub show : ℕ → String
unfolding show_loop
show n = show_loop (suc n) n ""

show_120 : show 120 ≡ "120"
unfolding show
show_120 = refl
