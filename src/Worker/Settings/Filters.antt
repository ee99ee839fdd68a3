-- ===== src/Worker/Settings/Filters.antt =====
-- `build_filter_chain` of worker/settings_builder.py. The predicates are the engine's; here they
-- are the calls that make them.
use onecrawler_backend.Prelude.{String, Option, none, some, List, [], ◌∷◌}
use onecrawler_backend.Models.{FilterGroupIn, FilterNodeIn, FilterKind, FilterGroupMode}

pub data Predicate : Type 0 where
  by_date : Option String → Option String → Predicate
  by_keywords : List String → Predicate
  by_files : List String → Predicate
  by_extension : List String → Predicate
  by_cosine_similarity : String → String → Predicate

pub data Chain : Type 0 where
  all_of : List Predicate → Chain
  any_of : List Predicate → Chain

-- `x or []`
abbrev pub or_empty : Option (List String) → List String
or_empty none = []
or_empty (some xs) = xs

-- `query or ""`
abbrev pub or_blank : Option String → String
or_blank none = ""
or_blank (some q) = q

-- `threshold or 0.25`, where `nonzero` tells the literals of the float 0 from the others
abbrev pub or_quarter : (String → Option String) → Option String → String
or_quarter nonzero none = "0.25"
or_quarter nonzero (some t) = elim (nonzero t) [ none ↦ "0.25" | some u ↦ u ]

abbrev pub predicate_of : (String → Option String) → FilterKind → FilterNodeIn → Predicate
predicate_of nonzero FilterKind.by_date node = Predicate.by_date node.start node.end
predicate_of nonzero FilterKind.by_keywords node = Predicate.by_keywords (or_empty node.keywords)
predicate_of nonzero FilterKind.by_files node = Predicate.by_files (or_empty node.types)
predicate_of nonzero FilterKind.by_extension node =
    Predicate.by_extension (or_empty node.extensions)
predicate_of nonzero FilterKind.by_cosine_similarity node =
    Predicate.by_cosine_similarity (or_blank node.query) (or_quarter nonzero node.threshold)

-- the loop over `group.chain`
unfoldable pub predicates_of : (String → Option String) → List FilterNodeIn → List Predicate
predicates_of nonzero [] = []
predicates_of nonzero (node ∷ chain) =
    predicate_of nonzero node.kind node ∷ predicates_of nonzero chain

abbrev pub chain_of : FilterGroupMode → List Predicate → Option Chain
chain_of mode [] = none
chain_of FilterGroupMode.and (p ∷ ps) = some (Chain.all_of (p ∷ ps))
chain_of FilterGroupMode.or (p ∷ ps) = some (Chain.any_of (p ∷ ps))

-- `nonzero` reads the literal of a threshold: none for the float 0, which is false.
unfoldable pub build_filter_chain : (String → Option String) → Option FilterGroupIn → Option Chain
unfolding predicates_of
build_filter_chain nonzero none = none
build_filter_chain nonzero (some group) = chain_of group.mode (predicates_of nonzero group.chain)
