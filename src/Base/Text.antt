-- ===== src/Base/Text.antt =====
-- Texts: joining the parts of a template literal, and the decimal form of a number.
use Prim.Native.Nat.{ℕ, zero, suc, ◌/◌, ◌%◌}
use Prim.Native.String
use Prim.Native.String.{String}
use cnc_network_bridge.Base.Tests.{ltb, if◌then◌else◌}

infixr 65 ◌<>◌
abbrev pub ◌<>◌ : String → String → String
s <> t = String.◌++◌ s t

pub digit : ℕ → String
digit zero = "0"
digit (suc zero) = "1"
digit (suc (suc zero)) = "2"
digit (suc (suc (suc zero))) = "3"
digit (suc (suc (suc (suc zero)))) = "4"
digit (suc (suc (suc (suc (suc zero))))) = "5"
digit (suc (suc (suc (suc (suc (suc zero)))))) = "6"
digit (suc (suc (suc (suc (suc (suc (suc zero))))))) = "7"
digit (suc (suc (suc (suc (suc (suc (suc (suc zero)))))))) = "8"
digit n = "9"

-- Each round drops a digit, so that more rounds than the number's value are never needed.
pub decimal_rounds : ℕ → ℕ → String
decimal_rounds zero n = ""
decimal_rounds (suc fuel) n =
    let more = decimal_rounds fuel (n / 10) <> digit (n % 10) in if ltb n 10 then digit n else more

-- `String(n)` of a natural number.
unfoldable pub decimal : ℕ → String
unfolding digit decimal_rounds
decimal n = decimal_rounds (suc n) n
