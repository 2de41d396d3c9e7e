-- ===== src/Pipeline/Tokens.antt =====
-- The document tokens of an update (`applyUpdate` of internal/core/pipeline.go).
use mathlib.Core.List.{append-nil, append_assoc}
use feishu_agent_mem.Prelude.{
  ◌≡◌, refl, ◌∙◌, sym, ap, arith, String, str_eq, eq_iff, List, [], ◌∷◌, ◌++◌, any, any-append,
  count_if, count_if-append, Bool, false, Bool-cases, inl, inr, if◌then◌else◌,
}
use feishu_agent_mem.Decision.Types.{DecisionNode}
use feishu_agent_mem.Graph.State.{append_unique}
use feishu_agent_mem.Pipeline.Engine.{append_tokens, merge_doc_tokens}

abbrev pub holds : List String → String → Bool
holds tokens t = any (λ s. str_eq s t) tokens

-- The tokens that are not among those before, each once, in their order.
unfoldable pub fresh : List String → List String → List String
fresh before [] = []
fresh before (t ∷ tokens) =
    let known = fresh before tokens in
    let new = fresh (before ++ t ∷ []) tokens in if holds before t then known else t ∷ new

-- A decision with other document tokens, and no other field changed.
abbrev pub with_tokens : List String → DecisionNode → DecisionNode
with_tokens tokens d = record d {
  feishu_links = record d.feishu_links { related_doc_tokens = tokens };
}

append_tokens-fresh :
    (before tokens : List String) → append_tokens before tokens ≡ before ++ fresh before tokens
unfolding append_tokens append_unique fresh
append_tokens-fresh before [] = sym (append-nil before)
append_tokens-fresh before (t ∷ tokens) = elim (Bool-cases (holds before t)) [
  | inl known ↦ rw known (append_tokens-fresh before tokens)
  | inr new ↦ rw new (
      append_tokens-fresh (before ++ t ∷ []) tokens
      ∙ append_assoc before (t ∷ []) (fresh (before ++ t ∷ []) tokens))
]

pub merge_doc_tokens_lem :
    (existing node : DecisionNode)
    → let before = existing.feishu_links.related_doc_tokens in
      merge_doc_tokens existing node
      ≡ with_tokens (before ++ fresh before node.feishu_links.related_doc_tokens) existing
unfolding merge_doc_tokens
merge_doc_tokens_lem existing node =
    ap (λ tokens. with_tokens tokens existing)
      (append_tokens-fresh existing.feishu_links.related_doc_tokens
        node.feishu_links.related_doc_tokens)

count-absent :
    (t : String) (tokens : List String)
    → holds tokens t ≡ false
    → count_if (λ s. str_eq s t) tokens ≡ 0
count-absent t [] h = refl
count-absent t (u ∷ tokens) h = ground (arith, h, count-absent t tokens)

-- How often a token stands among the fresh ones.
count-fresh :
    (t : String) (before tokens : List String)
    → count_if (λ s. str_eq s t) (fresh before tokens)
      ≡ (if holds before t then 0 else if holds tokens t then 1 else 0)
unfolding fresh
count-fresh t before [] = ground arith
count-fresh t before (u ∷ tokens) = elim (Bool-cases (str_eq u t)) [
  | inl same ↦ ground (
    arith,
    same,
    ap (holds before) ((eq_iff u t).0 same),
    count-fresh t before tokens,
    count-fresh t (before ++ u ∷ []) tokens,
    any-append (λ s. str_eq s t) before (u ∷ []),
  )
  | inr other ↦ ground (
    arith,
    other,
    count-fresh t before tokens,
    count-fresh t (before ++ u ∷ []) tokens,
    any-append (λ s. str_eq s t) before (u ∷ []),
  )
]

-- A token that the decision had stays as often as it was; any other that the new one has comes once.
pub count-merged :
    (t : String) (before tokens : List String)
    → count_if (λ s. str_eq s t) (before ++ fresh before tokens) ≡ (
        if holds before t
        then count_if (λ s. str_eq s t) before
        else if holds tokens t
        then 1
        else 0)
count-merged t before tokens = ground (
  arith,
  count_if-append (λ s. str_eq s t) before (fresh before tokens),
  count-fresh t before tokens,
  count-absent t before,
)
