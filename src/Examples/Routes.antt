-- ===== src/Examples/Routes.antt =====
-- Requests of the assistant's tools and the routes that answer them.
use Prim.Native.Char.{Char, code}
use text.Mathlib.TextLemmas.{nil-append, cons-append}
use onecrawler_backend.Prelude.{
  ◌≡◌, ◌∙◌, refl, ap, true, false, Bool, ◌==◌, if◌then◌else◌, some, String, List, [], ◌∷◌, drop,
  str_append, All, arith,
}
use onecrawler_backend.Agent.Tools.Routing.{path, api_router, resolve, get_crawl_logs, endpoint}
use onecrawler_backend.Agent.Tools.Routed.{
  is_plain_char, all_plain, IsPlain, ReadsPlain, resolve-endpoint,
}

-- A router that splits the text of a path at its slashes.
abbrev is_slash : Char → Bool
is_slash c = code c == 47

abbrev onto : Char → List String → List String
onto c [] = String.◌∷◌ c String.[] ∷ []
onto c (s ∷ ss) = String.◌∷◌ c s ∷ ss

unfoldable segments : String → List String
segments String.[] = String.[] ∷ []
segments (String.◌∷◌ c s) =
    let rest = segments s in if is_slash c then String.[] ∷ rest else onto c rest

abbrev split_slashes : String → List String
split_slashes s = drop 1 (segments s)

segments-slash : (s : String) → segments (str_append "/" s) ≡ String.[] ∷ segments s
unfolding segments
segments-slash s = ap segments (cons-append "/" "" s ∙ ap (String.◌∷◌ "/") (nil-append s))

plain_unslashed : (c : Char) → is_plain_char c ≡ true → is_slash c ≡ false
plain_unslashed c h = ground (arith, h)

segments-plain :
    (s : String) (ss : List String)
    → all_plain s ≡ true
    → All IsPlain ss
    → segments (str_append s (path ss)) ≡ s ∷ ss
unfolding segments path
segments-plain String.[] [] h hs = ap segments (nil-append "")
segments-plain String.[] (t ∷ ts) h hs =
    ap segments (nil-append (str_append "/" (str_append t (path ts))))
    ∙ segments-slash (str_append t (path ts))
    ∙ ap (λ r. String.[] ∷ r) (segments-plain t ts (ground (arith, hs.0)) hs.1)
segments-plain (String.◌∷◌ c s) ss h hs =
    ap segments (cons-append c s (path ss))
    ∙ rw (plain_unslashed c (ground (arith, h)), segments-plain s ss (ground (arith, h)) hs) refl

split_slashes-ReadsPlain : ReadsPlain split_slashes
unfolding segments path
split_slashes-ReadsPlain s ss h hs =
    ap (drop 1) (segments-slash (str_append s (path ss)))
    ∙ segments-plain s ss (ground (arith, h)) hs

resolve-endpoint_example :
    resolve api_router
      (endpoint (get_crawl_logs "7f")).0
      (split_slashes (endpoint (get_crawl_logs "7f")).1)
    ≡ some "get_crawl_logs"
resolve-endpoint_example =
    resolve-endpoint split_slashes split_slashes-ReadsPlain (get_crawl_logs "7f") (refl, tt)
