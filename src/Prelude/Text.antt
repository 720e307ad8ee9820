-- ===== src/Prelude/Text.antt =====
-- Prefixes of texts.
use Prim.Native.Char.{Char, code}
use Prim.Native.String.{String, ◌++◌ as str_append}
use Prim.Native.String.append
use mathlib.Core.Path.{◌≡◌, refl}
use mathlib.Core.Bool.{Bool, true, false, not, ◌&&◌}
use native.Mathlib.Omega.{arith}
use text.Mathlib.TextEquality.{Char-path}
use agent_graph_studio.Prelude.Equality.{◌==◌, ==_iff, ==_refl, nat_eq}

-- `s.startswith(p)`
abbrev pub starts_with : String → String → Bool
starts_with String.[] s = true
starts_with (String.◌∷◌ c p) String.[] = false
starts_with (String.◌∷◌ c p) (String.◌∷◌ d s) = code c == code d && starts_with p s

-- The character does not occur.
abbrev pub lacks : Char → String → Bool
lacks c String.[] = true
lacks c (String.◌∷◌ d s) = not (code d == code c) && lacks c s

pub starts_with-append : (p s : String) → starts_with p (str_append p s) ≡ true
starts_with-append String.[] s = refl
starts_with-append (String.◌∷◌ c p) s =
    rw append.cons (ground (arith, ==_refl (code c), starts_with-append p s))

-- What stands before a separator is determined by the text.
pub starts_with-delimited :
    (c : Char) (g h s : String)
    → lacks c g ≡ true
    → lacks c h ≡ true
    → starts_with (str_append g (String.◌∷◌ c String.[])) (str_append h (String.◌∷◌ c s)) ≡ true
    → g ≡ h
starts_with-delimited c String.[] String.[] s p q r = refl
starts_with-delimited c String.[] (String.◌∷◌ d h) s p q r = absurd (
    ground (
      arith,
      rw append.nil at (rw append.cons at r),
      ==_iff (code d) (code c),
      ==_iff (code c) (code d),
    ))
starts_with-delimited c (String.◌∷◌ d g) String.[] s p q r =
    absurd (ground (arith, rw append.nil at (rw append.cons at r), ==_iff (code d) (code c)))
starts_with-delimited c (String.◌∷◌ d g) (String.◌∷◌ e h) s p q r =
    let both : (code d == code e
          && starts_with (str_append g (String.◌∷◌ c String.[])) (str_append h (String.◌∷◌ c s)))
        ≡ true =
      rw (append.cons d g (String.◌∷◌ c String.[]), append.cons e h (String.◌∷◌ c s)) at r in
    let first : d ≡ e = Char-path d e ((==_iff (code d) (code e)).0 (ground arith)) in
    let rest : g ≡ h = starts_with-delimited c g h s (ground arith) (ground arith) (ground arith) in
    cc

pub str_append_assoc :
    (s t u : String) → str_append (str_append s t) u ≡ str_append s (str_append t u)
str_append_assoc String.[] t u = rw (append.nil t, append.nil (str_append t u)) refl
str_append_assoc (String.◌∷◌ c s) t u =
    rw
      (
        append.cons c s t,
        append.cons c (str_append s t) u,
        append.cons c s (str_append t u),
        str_append_assoc s t u,
      )
      refl

pub starts_with-append_both :
    (p s t : String) → starts_with (str_append p s) (str_append p t) ≡ starts_with s t
starts_with-append_both String.[] s t = rw (append.nil s, append.nil t) refl
starts_with-append_both (String.◌∷◌ c p) s t =
    rw (append.cons c p s, append.cons c p t)
      (ground (arith, ==_refl (code c), starts_with-append_both p s t))
