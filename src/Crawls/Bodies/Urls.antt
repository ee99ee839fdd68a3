-- ===== src/Crawls/Bodies/Urls.antt =====
-- The validators of a `CreateCrawlRequest`, run again on what they have made.
use Prim.Native.Char.{Char}
use Prim.Native.String.{String}
use mathlib.Core.Path.{subst}
use text.Mathlib.TextLemmas.{cons-append, nil-append}
use onecrawler_backend.Prelude.{
  Bool, ◌≡◌, ◌∙◌, refl, sym, ap, inl, inr, true, false, ◌&&◌, Option, none, some, Bool-cases, arith,
  if◌then◌else◌, is_blank, is_space, is_space_char, str_append, lstrip, rstrip, strip, starts_with,
  contains,
}
use onecrawler_backend.Crawls.{CreateCrawlRequest}
use onecrawler_backend.Crawls.Bodies.{
  validate_request, validate_filters, with_target_url, Url, is_http, with_scheme,
  normalize_target_url,
}

rstrip-rstrip : (s : String) → rstrip (rstrip s) ≡ rstrip s
unfolding rstrip
rstrip-rstrip String.[] = refl
rstrip-rstrip (String.◌∷◌ c s) = elim (Bool-cases (is_space_char c && is_blank (rstrip s))) [
  | inl e ↦ rw e refl
  | inr e ↦ rw (e, rstrip-rstrip s, e) refl
]

lstrip_first :
    (c : Char) (s : String) → is_space_char c ≡ false → lstrip (String.◌∷◌ c s) ≡ String.◌∷◌ c s
unfolding lstrip
lstrip_first c s e = rw e refl

rstrip_first :
    (c : Char) (s : String)
    → is_space_char c ≡ false
    → rstrip (String.◌∷◌ c s) ≡ String.◌∷◌ c (rstrip s)
unfolding rstrip
rstrip_first c s e = rw e refl

-- What `rstrip` leaves begins where the text does, so nothing is left for `lstrip`.
lstrip-rstrip : (s : String) → lstrip (rstrip (lstrip s)) ≡ rstrip (lstrip s)
unfolding lstrip rstrip
lstrip-rstrip String.[] = refl
lstrip-rstrip (String.◌∷◌ c s) = elim (Bool-cases (is_space_char c)) [
  | inl e ↦ rw e (lstrip-rstrip s)
  | inr e ↦
      ap (λ t. lstrip (rstrip t)) (lstrip_first c s e)
      ∙ ap lstrip (rstrip_first c s e)
      ∙ lstrip_first c (rstrip s) e
      ∙ sym (rstrip_first c s e)
      ∙ ap rstrip (sym (lstrip_first c s e))
]

strip-strip : (s : String) → strip (strip s) ≡ strip s
unfolding strip
strip-strip s = ap rstrip (lstrip-rstrip s) ∙ rstrip-rstrip (lstrip s)

-- A scheme put before a text without spaces around it leaves it without.
strip-https :
    (s : String) → rstrip s ≡ s → strip (str_append "https://" s) ≡ str_append "https://" s
unfolding strip lstrip rstrip is_space
strip-https s h =
    rw
      (
        cons-append, cons-append, cons-append, cons-append, cons-append, cons-append, cons-append,
        cons-append, nil-append, h,
      )
      refl

contains-https : (s : String) → contains "://" (str_append "https://" s) ≡ true
unfolding contains starts_with
contains-https s =
    rw
      (
        cons-append, cons-append, cons-append, cons-append, cons-append, cons-append, cons-append,
        cons-append,
      )
      refl

rstrip-strip : (s : String) → rstrip (strip s) ≡ strip s
unfolding strip
rstrip-strip s = rstrip-rstrip (lstrip s)

strip-with_scheme : (s : String) → strip (with_scheme (strip s)) ≡ with_scheme (strip s)
unfolding with_scheme
strip-with_scheme s = elim (Bool-cases (contains "://" (strip s))) [
  | inl e ↦ rw e (strip-strip s)
  | inr e ↦ rw e (strip-https (strip s) (rstrip-strip s))
]

with_scheme-with_scheme : (s : String) → with_scheme (with_scheme s) ≡ with_scheme s
unfolding with_scheme
with_scheme-with_scheme s = elim (Bool-cases (contains "://" s)) [
  | inl e ↦ rw (e, e) refl
  | inr e ↦ rw (e, contains-https s) refl
]

abbrev accept : (String → Option Url) → String → Option String
accept urlparse url = if is_http (urlparse url) then some url else none

accept_http :
    (urlparse : String → Option Url) (url : String)
    → is_http (urlparse url) ≡ true
    → accept urlparse url ≡ some url
accept_http urlparse url e = rw e refl

accept_same :
    (urlparse : String → Option Url) (made url : String)
    → accept urlparse made ≡ some url
    → made ≡ url
accept_same urlparse made url h = ground arith

-- A target URL that was accepted is accepted again, and is then left as it is.
normalize_target_url_again :
    (urlparse : String → Option Url) (value url : String)
    → normalize_target_url urlparse value ≡ some url
    → normalize_target_url urlparse url ≡ some url
unfolding normalize_target_url
normalize_target_url_again urlparse value url h =
    let made = with_scheme (strip value) in
    elim (Bool-cases (is_http (urlparse made))) [
      | inr e ↦ absurd (ground (arith, e, h))
      | inl e ↦
          let same : made ≡ url = accept_same urlparse made url h in
          let fixed : with_scheme (strip made) ≡ made =
            ap with_scheme (strip-with_scheme value) ∙ with_scheme-with_scheme (strip value) in
          subst (λ u. accept urlparse (with_scheme (strip u)) ≡ some u) same
            (ap (accept urlparse) fixed ∙ accept_http urlparse made e)
    ]

with_target_url-inv :
    (r accepted : CreateCrawlRequest) (o : Option String)
    → with_target_url r o ≡ some accepted
    → (url : String) × (o ≡ some url) × (record r { target_url = url } ≡ accepted)
with_target_url-inv r accepted none h = cc
with_target_url-inv r accepted (some url) h = (url, refl, cc)

-- A request that the validators accept is, in the form that they give it, accepted again and left as
-- it is.
pub validate_request_again :
    (urlparse : String → Option Url) (strptime : String → Bool) (r accepted : CreateCrawlRequest)
    → validate_request urlparse strptime r ≡ some accepted
    → validate_request urlparse strptime accepted ≡ some accepted
unfolding validate_request
validate_request_again urlparse strptime r accepted h =
    elim (Bool-cases (validate_filters strptime r.filters)) [
      | inr e ↦ let refused = rw e at h in cc
      | inl e ↦
          let (url, normal, same) =
            with_target_url-inv r accepted (normalize_target_url urlparse r.target_url)
              (rw e at h) in
          let again = normalize_target_url_again urlparse r.target_url url normal in
          subst (λ x. validate_request urlparse strptime x ≡ some x) same (rw (e, again) refl)
    ]
