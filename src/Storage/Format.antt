-- ===== src/Storage/Format.antt =====
-- The files that Git keeps (internal/storage/git/format.go): a decision or an objection as YAML
-- between two rules, with Markdown behind them. The YAML library is the parameter `Yaml`; a file is
-- text in valid UTF-8, and `bufio.Scanner` is written out with its limit on a line.
use feishu_agent_mem.Prelude.{
  ℕ, String, str_append, str_eq, List, [], ◌∷◌, ◌++◌, Bool, ◌&&◌, ltb, Result, err, trim_space,
  scan_lines, is_empty, size, if◌then◌else◌,
}
use feishu_agent_mem.Decision.Types.{DecisionNode, Objection, ObjectionStatus}
use feishu_agent_mem.Signal.Texts.{status_text, impact_text}

-- yaml.NewEncoder(…).Encode(v), whose error is dropped, and yaml.Unmarshal.
pub record Yaml (A : Type 0) : Type 0 where
  pub encode : A → String
  pub unmarshal : String → Result A

unfoldable pub concat : List String → String
concat [] = ""
concat (s ∷ rest) = str_append s (concat rest)

-- if value != "" { buf.WriteString(…) }
unfoldable pub optional : String → List String → List String
optional value pieces = if is_empty value then [] else pieces

-- fmt.Sprintf("- **label**: %s\n", value)
unfoldable pub entry : String → String → List String
entry label value = "- **" ∷ label ∷ "**: " ∷ value ∷ "\n" ∷ []

unfoldable pub decision_body : DecisionNode → List String
unfolding optional entry status_text impact_text
decision_body d =
    ("# " ∷ d.title ∷ "\n\n" ∷ [])
    ++ ("## 决策\n\n" ∷ d.decision ∷ "\n\n" ∷ [])
    ++ optional d.rationale ("## 依据\n\n" ∷ d.rationale ∷ "\n\n" ∷ [])
    ++ ("## 元数据\n\n" ∷ [])
    ++ entry "议题" d.topic
    ++ entry "状态" (status_text d.status)
    ++ entry "影响级别" (impact_text d.impact_level)
    ++ optional d.proposer (entry "提出人" d.proposer)
    ++ optional d.executor (entry "执行人" d.executor)
    ++ optional d.decision_type (entry "决策类型" d.decision_type)
    ++ (if is_empty d.project_phase
          && is_empty d.decision_time
          && is_empty d.effective_time
          && is_empty d.deadline
        then []
        else ("\n## 时间关联\n\n" ∷ [])
          ++ optional d.project_phase (entry "项目阶段" d.project_phase)
          ++ optional d.decision_time (entry "决策时间" d.decision_time)
          ++ optional d.effective_time (entry "生效时间" d.effective_time)
          ++ optional d.deadline (entry "截止时间" d.deadline))

unfoldable pub objection_status_text : ObjectionStatus → String
objection_status_text ObjectionStatus.active = "active"
objection_status_text ObjectionStatus.resolved = "resolved"
objection_status_text ObjectionStatus.overruled = "overruled"
objection_status_text (ObjectionStatus.other s) = s

unfoldable pub objection_body : Objection → List String
unfolding optional entry objection_status_text
objection_body o =
    ("# Objection: " ∷ o.objection_content ∷ "\n\n" ∷ [])
    ++ optional o.rationale ("## 理由\n\n" ∷ o.rationale ∷ "\n\n" ∷ [])
    ++ optional o.alternative ("## 替代方案\n\n" ∷ o.alternative ∷ "\n\n" ∷ [])
    ++ entry "反对人" o.objector
    ++ entry "状态" (objection_status_text o.status)
    ++ optional o.references_decision (entry "关联决策" o.references_decision)
    ++ entry "来源" o.source_type

-- bufio.MaxScanTokenSize
abbrev pub max_scan_token_size : ℕ
max_scan_token_size = 65536

-- A line without one `\r` at its end.
unfoldable pub drop_cr : String → String
unfolding is_empty
drop_cr String.[] = String.[]
drop_cr (String.◌∷◌ c s) =
    let rest = drop_cr s in if str_eq (String.◌∷◌ c s) "\r" then String.[] else String.◌∷◌ c rest

-- scanner.Scan() and scanner.Text(), until the input ends or a line does not fit into the buffer.
unfoldable pub scanned : List String → List String
unfolding size drop_cr
scanned [] = []
scanned (line ∷ lines) =
    let rest = scanned lines in
    if ltb (size line) max_scan_token_size then drop_cr line ∷ rest else []

unfoldable pub is_rule : String → Bool
unfolding trim_space
is_rule line = str_eq (trim_space line) "---"

-- The loop of both parsers, from the first rule on.
unfoldable pub inside_frontmatter : List String → String
unfolding is_rule
inside_frontmatter [] = ""
inside_frontmatter (line ∷ lines) =
    let rest = inside_frontmatter lines in
    if is_rule line then "" else str_append line (str_append "\n" rest)

-- The loop of both parsers, with `inFrontmatter` still false.
unfoldable pub frontmatter : List String → String
unfolding is_rule inside_frontmatter
frontmatter [] = ""
frontmatter (line ∷ lines) =
    let rest = frontmatter lines in if is_rule line then inside_frontmatter lines else rest

module _ {A : Type 0} (yaml : Yaml A) where
  unfoldable pub render_file : List String → A → String
  unfolding concat
  render_file body a =
      str_append "---\n"
        (str_append (yaml.encode a) (str_append "---\n" (str_append "\n" (concat body))))

  unfoldable pub parse_file : String → Result A
  unfolding scan_lines scanned frontmatter is_empty
  parse_file text =
      let front = frontmatter (scanned (scan_lines text)) in
      if is_empty front then err "no frontmatter found" else yaml.unmarshal front

unfoldable pub render_decision_file : Yaml DecisionNode → DecisionNode → String
unfolding render_file decision_body
render_decision_file yaml d = render_file yaml (decision_body d) d

unfoldable pub parse_decision_file : Yaml DecisionNode → String → Result DecisionNode
unfolding parse_file
parse_decision_file yaml = parse_file yaml

unfoldable pub render_objection_file : Yaml Objection → Objection → String
unfolding render_file objection_body
render_objection_file yaml o = render_file yaml (objection_body o) o

unfoldable pub parse_objection_file : Yaml Objection → String → Result Objection
unfolding parse_file
parse_objection_file yaml = parse_file yaml
