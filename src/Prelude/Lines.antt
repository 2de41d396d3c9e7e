-- ===== src/Prelude/Lines.antt =====
-- The functions of Go's strings package that the code calls on whole texts: lines, white space,
-- substrings and lower case of ASCII.
use Prim.Native.Char.{Char, code}
use Prim.Native.String.{String, ◌++◌ as str_append}
use Prim.Native.String.append
use Prim.Native.Nat.{ℕ, zero, suc, ◌+◌, ◌-◌}
use text.Mathlib.Text.{◌==◌ as str_eq}
use mathlib.Core.Path.{◌≡◌, refl}
use mathlib.Core.Bool.{Bool, true, false, not, ◌&&◌, ◌||◌}
use mathlib.Core.List.{List, [], ◌∷◌}
use native.Mathlib.Omega.{arith}
use feishu_agent_mem.Prelude.Tests.{◌==◌, leb, ltb, if◌then◌else◌}
use mathlib.Core.Option.{Option, none, some}
use feishu_agent_mem.Prelude.Lists.{keep}
use feishu_agent_mem.Prelude.Texts.{begins_with}

-- unicode.IsSpace
unfoldable pub is_space : ℕ → Bool
is_space c =
    leb 9 c && leb c 13
    || c == 32
    || c == 133
    || c == 160
    || c == 5760
    || leb 8192 c && leb c 8202
    || c == 8232
    || c == 8233
    || c == 8239
    || c == 8287
    || c == 12288

unfoldable pub is_empty : String → Bool
is_empty String.[] = true
is_empty (String.◌∷◌ c s) = false

unfoldable pub trim_left : String → String
unfolding is_space
trim_left String.[] = String.[]
trim_left (String.◌∷◌ c s) =
    let rest = trim_left s in if is_space (code c) then rest else String.◌∷◌ c s

unfoldable pub trim_right : String → String
unfolding is_space is_empty
trim_right String.[] = String.[]
trim_right (String.◌∷◌ c s) =
    let rest = trim_right s in
    if is_space (code c) && is_empty rest then String.[] else String.◌∷◌ c rest

-- strings.TrimSpace(s)
unfoldable pub trim_space : String → String
unfolding trim_left trim_right
trim_space s = trim_right (trim_left s)

-- A character put in front of the first of some lines.
unfoldable pub put_char : Char → List String → List String
put_char c [] = String.◌∷◌ c String.[] ∷ []
put_char c (line ∷ lines) = String.◌∷◌ c line ∷ lines

-- strings.Split(s, "\n")
unfoldable pub split_lines : String → List String
unfolding put_char
split_lines String.[] = String.[] ∷ []
split_lines (String.◌∷◌ c s) =
    let rest = split_lines s in if code c == 10 then String.[] ∷ rest else put_char c rest

-- The lines that end in a newline, and what is behind the last newline if it is not empty.
unfoldable pub scan_lines : String → List String
unfolding put_char
scan_lines String.[] = []
scan_lines (String.◌∷◌ c s) =
    let rest = scan_lines s in if code c == 10 then String.[] ∷ rest else put_char c rest

unfoldable pub has_newline : String → Bool
has_newline String.[] = false
has_newline (String.◌∷◌ c s) = code c == 10 || has_newline s

pub scan_lines-append :
    (line rest : String)
    → has_newline line ≡ false
    → scan_lines (str_append line (str_append "\n" rest)) ≡ line ∷ scan_lines rest
unfolding scan_lines has_newline put_char
scan_lines-append String.[] rest h =
    rw (append.nil (str_append "\n" rest), append.cons "\n" "" rest, append.nil rest) refl
scan_lines-append (String.◌∷◌ c line) rest h =
    rw (append.cons c line (str_append "\n" rest))
      (ground (arith, h, scan_lines-append line rest (ground (arith, h))))

-- Every line with a newline behind it.
unfoldable pub unlines : List String → String
unlines [] = ""
unlines (line ∷ lines) = str_append line (str_append "\n" (unlines lines))

-- The bytes of a text in UTF-8.
unfoldable pub size : String → ℕ
size String.[] = 0
size (String.◌∷◌ c s) =
    let rest = size s in
    if ltb (code c) 128
    then 1 + rest
    else if ltb (code c) 2048
    then 2 + rest
    else if ltb (code c) 65536
    then 3 + rest
    else 4 + rest

-- strings.Contains
unfoldable pub contains : List ℕ → List ℕ → Bool
unfolding begins_with
contains [] p = begins_with [] p
contains (c ∷ s) p = begins_with (c ∷ s) p || contains s p

-- s[:n] of a text, in bytes; a character that the cut splits is left out.
unfoldable pub first_bytes : ℕ → String → String
unfolding size
first_bytes n String.[] = String.[]
first_bytes n (String.◌∷◌ c s) =
    let w = size (String.◌∷◌ c "") in
    let rest = first_bytes (n - w) s in if leb w n then String.◌∷◌ c rest else String.[]

-- strings.HasSuffix
unfoldable pub has_suffix : String → String → Bool
has_suffix String.[] p = str_eq String.[] p
has_suffix (String.◌∷◌ c s) p = str_eq (String.◌∷◌ c s) p || has_suffix s p

unfoldable pub split_spaces : String → List String
unfolding put_char is_space
split_spaces String.[] = String.[] ∷ []
split_spaces (String.◌∷◌ c s) =
    let rest = split_spaces s in if is_space (code c) then String.[] ∷ rest else put_char c rest

-- strings.Fields
unfoldable pub fields : String → List String
unfolding split_spaces is_empty
fields s = keep (λ w. not (is_empty w)) (split_spaces s)

-- The text behind the first space, of two parts: strings.SplitN(s, " ", 2)
unfoldable pub behind_space : String → Option String
behind_space String.[] = none
behind_space (String.◌∷◌ c s) = let rest = behind_space s in if code c == 32 then some s else rest

-- string([]rune(s)[:n])
unfoldable pub first_runes : ℕ → String → String
first_runes zero s = String.[]
first_runes (suc n) String.[] = String.[]
first_runes (suc n) (String.◌∷◌ c s) = String.◌∷◌ c (first_runes n s)
