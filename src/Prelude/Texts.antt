-- ===== src/Prelude/Texts.antt =====
-- Go's strings where the code walks them: as code points, which agree with the bytes for the prefix
-- and substring tests of valid UTF-8 texts, since no character's bytes begin inside another's.
use Prim.Native.Char.{code}
use Prim.Native.String.{String, ◌++◌ as str_append}
use Prim.Native.String.append
use Prim.Native.Nat.{ℕ}
use mathlib.Core.Path.{◌≡◌, refl}
use mathlib.Core.Bool.{Bool, true, false, ◌&&◌}
use mathlib.Core.Option.{Option, none, some}
use mathlib.Core.List.{List, [], ◌∷◌, ◌++◌}
use mathlib.Core.Logic.{◌↔◌}
use native.Mathlib.Omega.{arith}
use feishu_agent_mem.Prelude.Tests.{◌==◌, if◌then◌else◌}

abbrev pub codes : String → List ℕ
codes String.[] = []
codes (String.◌∷◌ first rest) = code first ∷ codes rest

-- The rest of a text behind a prefix, if it begins with it.
unfoldable pub strip_prefix : String → String → Option String
strip_prefix String.[] s = some s
strip_prefix (String.◌∷◌ c p) String.[] = none
strip_prefix (String.◌∷◌ c p) (String.◌∷◌ d s) =
    let rest = strip_prefix p s in if code c == code d then rest else none

pub strip_prefix-append : (p s : String) → strip_prefix p (str_append p s) ≡ some s
unfolding strip_prefix
strip_prefix-append String.[] s = rw (append.nil s)
strip_prefix-append (String.◌∷◌ c p) s =
    rw (append.cons c p s) (ground (arith, strip_prefix-append p s))

-- s[i] == substr[j] for all j: the list begins with the other.
unfoldable pub begins_with : List ℕ → List ℕ → Bool
begins_with s [] = true
begins_with [] (b ∷ p) = false
begins_with (a ∷ s) (b ∷ p) = a == b && begins_with s p

begins_with_sound : (s p : List ℕ) → begins_with s p ≡ true → (t : List ℕ) × (s ≡ p ++ t)
unfolding begins_with
begins_with_sound s [] h = (s, refl)
begins_with_sound [] (b ∷ p) h = cc
begins_with_sound (a ∷ s) (b ∷ p) h =
    let rest = begins_with_sound s p (ground arith) in (rest.0, ground arith)

begins_with-append : (p t : List ℕ) → begins_with (p ++ t) p ≡ true
unfolding begins_with
begins_with-append [] t = refl
begins_with-append (b ∷ p) t = ground (arith, begins_with-append p t)

pub begins_with_iff : (s p : List ℕ) → (begins_with s p ≡ true) ↔ ((t : List ℕ) × (s ≡ p ++ t))
begins_with_iff s p = (begins_with_sound s p, λ h. rw h.1 (begins_with-append p h.0))

-- s == t
unfoldable pub same_text : List ℕ → List ℕ → Bool
same_text [] [] = true
same_text [] (d ∷ t) = false
same_text (c ∷ s) [] = false
same_text (c ∷ s) (d ∷ t) = c == d && same_text s t
