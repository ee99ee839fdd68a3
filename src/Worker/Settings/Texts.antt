-- ===== src/Worker/Settings/Texts.antt =====
-- The link patterns of worker/settings_builder.py.
use Prim.Native.Char.{code}
use Prim.Native.String.{String}
use text.Mathlib.TextLemmas.{cons-append, nil-append}
use onecrawler_backend.Prelude.{◌≡◌, ◌∙◌, refl, sym, ap, inl, inr, ◌==◌, str_append, Bool-cases}
use onecrawler_backend.Worker.Settings.{strip_left, strip_right, link_pattern}

strip_right-append : (s : String) → strip_right (str_append s "/") ≡ strip_right s
unfolding strip_right
strip_right-append String.[] = refl
strip_right-append (String.◌∷◌ c s) = rw (cons-append c s "/", strip_right-append s)

strip-append :
    (s : String) → strip_right (strip_left (str_append s "/")) ≡ strip_right (strip_left s)
unfolding strip_left strip_right
strip-append String.[] = refl
strip-append (String.◌∷◌ c s) = elim (Bool-cases (code c == 47)) [
  | inl e ↦ rw (cons-append c s "/", e) (strip-append s)
  | inr e ↦
      rw (cons-append c s "/", e)
        (ap strip_right (sym (cons-append c s "/")) ∙ strip_right-append (String.◌∷◌ c s))
]

strip_left-append : (s : String) → strip_left (str_append "/" s) ≡ strip_left s
unfolding strip_left
strip_left-append s = ap strip_left (cons-append "/" "" s) ∙ ap strip_left (nil-append s)

-- A slash before or after a keyword makes no difference to its pattern.
link_pattern-slash :
    (keyword : String)
    → (link_pattern (str_append "/" keyword) ≡ link_pattern keyword)
      × (link_pattern (str_append keyword "/") ≡ link_pattern keyword)
unfolding link_pattern
link_pattern-slash keyword = (
  ap (λ t. str_append "/" (str_append (strip_right t) "/*")) (strip_left-append keyword),
  ap (λ t. str_append "/" (str_append t "/*")) (strip-append keyword),
)
