-- ===== src/Storage/Names.antt =====
-- The paths, messages and counts of `GitStorage` (internal/storage/git/git_storage.go). Names of
-- projects, topics and ids hold no `.` or `..` segment and no doubled slash, so that
-- `filepath.Join` only joins.
use Prim.Native.Char.{code}
use feishu_agent_mem.Prelude.{
  ℕ, ◌+◌, ◌-◌, ◌*◌, String, str_append, str_eq, List, [], ◌∷◌, Bool, ◌&&◌, ◌||◌, ltb, leb, Result,
  ok, err, Option, none, some, is_empty, size, first_bytes, ◌==◌, if◌then◌else◌,
}
use feishu_agent_mem.Decision.Types.{DecisionNode, Objection}

-- filepath.Join: empty elements are left out.
unfoldable pub join : List String → String
unfolding is_empty
join [] = ""
join (s ∷ rest) =
    let behind = join rest in
    if is_empty s
    then behind
    else if is_empty behind
    then s
    else str_append s (str_append "/" behind)

unfoldable pub decision_dir : String → String → String
unfolding join
decision_dir project topic = join ("decisions" ∷ project ∷ topic ∷ [])

unfoldable pub decision_path : String → String → String → String
unfolding join
decision_path project topic sdr_id =
    join ("decisions" ∷ project ∷ topic ∷ str_append sdr_id ".md" ∷ [])

unfoldable pub objection_dir : String → String → String
unfolding join
objection_dir project topic = join ("objections" ∷ project ∷ topic ∷ [])

unfoldable pub objection_path : Objection → String
unfolding join
objection_path o = join ("objections" ∷ o.project ∷ o.topic ∷ str_append o.oid ".md" ∷ [])

-- strconv.Atoi of a count that git prints.
unfoldable pub digits_value : String → ℕ → Option ℕ
digits_value String.[] n = some n
digits_value (String.◌∷◌ c s) n =
    let rest = digits_value s (n * 10 + (code c - b'0')) in
    if leb b'0' (code c) && leb (code c) b'9' then rest else none

unfoldable pub atoi : String → Option ℕ
unfolding digits_value is_empty
atoi s = if is_empty s then none else digits_value s 0

unfoldable pub truncate : String → ℕ → String
unfolding size first_bytes
truncate s max_len = if leb (size s) max_len then s else str_append (first_bytes max_len s) "..."

unfoldable pub joined : String → List String → String
joined sep [] = ""
joined sep (s ∷ []) = s
joined sep (s ∷ t ∷ rest) = str_append s (str_append sep (joined sep (t ∷ rest)))

unfoldable pub format_commit_message : String → DecisionNode → String
unfolding joined truncate
format_commit_message type d = joined "" (
    type
    ∷ "("
    ∷ d.topic
    ∷ "): "
    ∷ d.sdr_id
    ∷ " - "
    ∷ d.title
    ∷ "\n\nDecision: "
    ∷ truncate d.decision 100
    ∷ "\nRationale: "
    ∷ truncate d.rationale 100
    ∷ "\nImpact: "
    ∷ joined ", " d.cross_topic_refs
    ∷ "\nProposer: "
    ∷ d.proposer
    ∷ [])

unfoldable pub objection_message : Objection → String
unfolding joined
objection_message o =
    joined "" ("objection(" ∷ o.topic ∷ "): " ∷ o.oid ∷ " - " ∷ o.objection_content ∷ [])

-- The node with the count of its branch's commits as its version, if git gives a positive count.
unfoldable pub with_count : Result String → DecisionNode → DecisionNode
unfolding atoi
with_count (err e) d = d
with_count (ok text) d = elim (atoi text) [
  | none ↦ d
  | some count ↦ if ltb 0 count then record d { version = count } else d
]

-- The cut set of strings.Trim(line, "\" \t\r\n").
unfoldable pub in_cutset : ℕ → Bool
in_cutset c = c == b'"' || c == b' ' || c == 9 || c == 13 || c == 10

unfoldable pub trim_start : String → String
unfolding in_cutset
trim_start String.[] = String.[]
trim_start (String.◌∷◌ c s) =
    let rest = trim_start s in if in_cutset (code c) then rest else String.◌∷◌ c s

unfoldable pub trim_end : String → String
unfolding in_cutset is_empty
trim_end String.[] = String.[]
trim_end (String.◌∷◌ c s) =
    let rest = trim_end s in
    if in_cutset (code c) && is_empty rest then String.[] else String.◌∷◌ c rest

-- strings.Trim of one line of `git ls-tree`.
unfoldable pub trimmed_path : String → String
unfolding trim_start trim_end
trimmed_path line = trim_end (trim_start line)

-- strings.TrimSuffix
unfoldable pub trim_suffix : String → String → String
trim_suffix String.[] p = String.[]
trim_suffix (String.◌∷◌ c s) p =
    let rest = trim_suffix s p in if str_eq (String.◌∷◌ c s) p then String.[] else String.◌∷◌ c rest
