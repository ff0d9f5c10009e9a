-- ===== src/Base/Texts.antt =====
-- Template literals: the parts of a text, joined.
use Prim.Native.String.{String, ◌++◌}
use Prim.Native.Char.{Char, code}
use Prim.Native.Nat.{ℕ, ◌+◌}
use newconduit.Base.Tests.{if◌then◌else◌, ltb}
use mathlib.Core.List.{List, [], ◌∷◌}

abbrev pub join : List String → String
join [] = ""
join (s ∷ rest) = s ++ join rest

-- `.length`: a character outside the basic plane counts twice.
units : Char → ℕ
units c = if ltb 65535 (code c) then 2 else 1

unfoldable pub text_length : String → ℕ
unfolding units
text_length String.[] = 0
text_length (String.◌∷◌ c s) = units c + text_length s

-- `Buffer.byteLength(text, 'utf8')`.
byte_units : Char → ℕ
byte_units c =
    if ltb (code c) 128
    then 1
    else if ltb (code c) 2048
    then 2
    else if ltb (code c) 65536
    then 3
    else 4

unfoldable pub byte_length : String → ℕ
unfolding byte_units
byte_length String.[] = 0
byte_length (String.◌∷◌ c s) = byte_units c + byte_length s
