-- ===== src/Base/Utf8.antt =====
-- The bytes of a Go string: the UTF-8 of its characters.
use Prim.Native.Nat.{ℕ, ◌+◌, ◌/◌, ◌%◌}
use Prim.Native.Char.{code}
use Prim.Native.String.{String, [], ◌∷◌}
use mathlib.Core.List.{List, ◌++◌}
use aghast.Base.Tests.{ltb, if◌then◌else◌}

abbrev follower : ℕ → ℕ
follower n = 128 + n % 64

abbrev pub char_bytes : ℕ → List ℕ
char_bytes n =
    if ltb n 128
    then List.◌∷◌ n List.[]
    else if ltb n 2048
    then List.◌∷◌ (192 + n / 64) (List.◌∷◌ (follower n) List.[])
    else if ltb n 65536
    then List.◌∷◌ (224 + n / 4096) (List.◌∷◌ (follower (n / 64)) (List.◌∷◌ (follower n) List.[]))
    else List.◌∷◌ (240 + n / 262144) (
        List.◌∷◌ (follower (n / 4096))
          (List.◌∷◌ (follower (n / 64)) (List.◌∷◌ (follower n) List.[])))

unfoldable pub utf8 : String → List ℕ
utf8 [] = List.[]
utf8 (c ∷ s) = char_bytes (code c) ++ utf8 s
