-- ===== src/Tests/Users.antt =====
-- The theorems on the shell's line editor and on the clock at concrete inputs.
use rml.Base.{ℕ, List, ◌∷◌, ◌++◌, codes}

-- A backspace on the empty line, a typing error, and a key behind Enter.
abbrev keys : List ℕ
keys = 8 ∷ codes "lx" ++ 8 ∷ codes "s" ++ 13 ∷ codes "q"
