-- ===== src/Worker/Summary.antt =====
-- `summarize_content` of worker/tasks.py. `decode_url` is Python's `unquote(url, errors="replace")`.
use Prim.Native.Char.{code}
use Prim.Native.String.{String}
use onecrawler_backend.Prelude.{
  ℕ, suc, Bool, true, false, Option, none, some, if◌then◌else◌, is_blank, prefix, is_space,
}
use onecrawler_backend.Models.{Content, Payload}

-- `len(text.split())`: the characters that begin a word, `inside` telling whether the one before
-- belongs to a word
unfoldable pub count_words : Bool → String → ℕ
unfolding is_space
count_words inside String.[] = 0
count_words inside (String.◌∷◌ c s) =
    let rest = count_words (if is_space (code c) then false else true) s in
    if is_space (code c) then rest else (if inside then rest else suc rest)

-- `x or d` on an optional text
abbrev pub text_or : Option String → String → String
text_or none d = d
text_or (some t) d = if is_blank t then d else t

pub record Summary : Type 0 where
  pub url : String
  pub title : String
  pub word_count : ℕ
  pub preview : String
  pub payload : Payload

module _ (decode_url : String → String) where
  -- the five values, from the url, the title, the text and the payload
  abbrev pub summary_of : String → String → String → Payload → Summary
  summary_of url title text payload = record {
    url = url;
    title = title;
    word_count = count_words false text;
    preview = prefix 400 text;
    payload = payload;
  }

  unfoldable pub summarize_content : Content → String → Summary
  unfolding count_words
  summarize_content (Content.mapping content) fallback_url =
      let url = decode_url (text_or content.url fallback_url) in
      summary_of url (text_or content.title url)
        (text_or content.text (text_or content.raw_text content.dump)) (Payload.extracted content)
  summarize_content (Content.printed text) fallback_url =
      summary_of (decode_url fallback_url) (decode_url fallback_url) text (Payload.text_only text)
