-- ===== src/Base/Text.antt =====
-- Python's `str.strip`, `len` of a text and of its UTF-8 encoding.
use Prim.Native.Nat.{zero, suc, ℕ, ◌+◌}
use Prim.Native.Char.{code}
use Prim.Native.String.{String, [], ◌∷◌}
use mathlib.Core.Bool.{Bool, true, false, ◌&&◌, ◌||◌}
use open_whistle.Base.Tests.{ltb, leb, ◌==◌, if◌then◌else◌}

-- str.isspace
abbrev pub is_space : ℕ → Bool
is_space c =
    (leb 9 c && leb c 13)
    || (leb 28 c && leb c 32)
    || (c == 133)
    || (c == 160)
    || (c == 5760)
    || (leb 8192 c && leb c 8202)
    || (c == 8232)
    || (c == 8233)
    || (c == 8239)
    || (c == 8287)
    || (c == 12288)

unfoldable pub is_empty : String → Bool
is_empty [] = true
is_empty (c ∷ s) = false

unfoldable pub lstrip : String → String
lstrip [] = []
lstrip (c ∷ s) = let rest = lstrip s in if is_space (code c) then rest else c ∷ s

unfoldable pub rstrip : String → String
unfolding is_empty
rstrip [] = []
rstrip (c ∷ s) = let rest = rstrip s in if is_space (code c) && is_empty rest then [] else c ∷ rest

unfoldable pub strip : String → String
unfolding lstrip rstrip
strip s = rstrip (lstrip s)

-- len(s)
unfoldable pub characters : String → ℕ
characters [] = 0
characters (c ∷ s) = characters s + 1

unfoldable pub all_characters : (ℕ → Bool) → String → Bool
all_characters p [] = true
all_characters p (c ∷ s) = p (code c) && all_characters p s

-- len(text.encode()): the bytes of UTF-8
unfoldable pub bytes : String → ℕ
bytes [] = 0
bytes (c ∷ s) =
    (if ltb (code c) 128
      then 1
      else if ltb (code c) 2048
      then 2
      else if ltb (code c) 65536
      then 3
      else 4)
    + bytes s

-- s[:n]
unfoldable pub truncate : ℕ → String → String
truncate zero s = []
truncate (suc n) [] = []
truncate (suc n) (c ∷ s) = c ∷ truncate n s
