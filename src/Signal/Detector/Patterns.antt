-- ===== src/Signal/Detector/Patterns.antt =====
-- The pattern matchers (internal/signal/detector.go): their regular expressions and weights. All of them
-- compile, so none is left out. Matching is the parameter `find`.
use feishu_agent_mem.Prelude.{ℕ, String, List, [], ◌∷◌, none, some}
use feishu_agent_mem.Signal.Detector.Details.{Texts, SignalDetail, detail}

pub record DecisionPattern : Type 0 where
  pub name : String
  pub regex : String
  pub weight : ℕ

abbrev pattern_of : String → ℕ → String → DecisionPattern
pattern_of name weight regex = record { name = name; regex = regex; weight = weight }

abbrev pub compile_patterns : List DecisionPattern
compile_patterns =
    pattern_of "adopt_solution" 75 "(采用|选用|使用|用)\\s*[，,。.\\s]*(方案|方式|方法|技术|框架|工具)"
    ∷ pattern_of "decide_solution" 70 "就[用定选]"
    ∷ pattern_of "decided_action" 80 "(决定|确认|同意)\\s*(使用|采用|用|选|选择)"
    ∷ pattern_of "final_plan" 50 "(最终|最后)[的决定的方案]"
    ∷ pattern_of "confirm_plan" 45 "(可以|没问题|ok|好的|行)[，,。.．！!\\s]*(就|按|照|这样)"
    ∷ pattern_of "approve_proposal" 80 "(同意|批准|通过|approve)\\s*(这个|该|此)"
    ∷ pattern_of "preference" 60 "(倾向于|偏向|建议|推荐)\\s*(使用|采用|选|用)"
    ∷ pattern_of "recommend" 55 "我\\s*(建议|推荐|觉得)\\s*[我们]?\\s*[采用使用选用]"
    ∷ pattern_of "conclusion_therefore" 30 "(因此|所以|那[就么]|那就)"
    ∷ pattern_of "conclusion_finally" 65 "总结[一下]?[：:,，]"
    ∷ pattern_of "conclusion_statement" 75 "结论[是就]"
    ∷ pattern_of "assign_task" 55 "(由|让|请)\\s*[@]?\\S{1,10}[来去]\\s*(负责|处理|跟进|做|完成)"
    ∷ pattern_of "owner_assign" 50 "([\\p{Han}\\w]{2,10})\\s*(负责|owner|owner是)"
    ∷ pattern_of "ab_selection" 45 "(用|选|采用)\\s*\\S{1,10}\\s*(还是|或|or|vs)\\s*\\S{1,10}"
    ∷ pattern_of "rejection" 55 "(不|别|不用|不需要|没必要)\\s*(考虑|使用|采用|选)"
    ∷ pattern_of "reject_proposal" 75 "(否决|驳回|不同意|反对)\\s*(这个|该|此)"
    ∷ pattern_of "explicit_objection" 80 "(我反对|我不同意|持保留意见|有异议|不认同)"
    ∷ pattern_of "alternative_proposal" 70 "(应该用|不如用|建议用|推荐用|换成|改用)\\s*\\S+\\s*(代替|替代|而不是|而非)"
    ∷ pattern_of "reasoned_disagreement" 85 "(不同意|反对|不认可).{2,20}(因为|原因是|理由|风险|问题)"
    ∷ pattern_of "reject_decision" 75 "(这个决定|这个方案|这个选择).{0,10}(有问题|不合适|不对|不好|不行)"
    ∷ pattern_of "deadline" 40 "(截止|之前|前|ddl|deadline)\\s*[：:为]?\\s*\\d{1,2}[月/.]"
    ∷ pattern_of "voting" 70 "(投票|表决|举手表决|投票决定|投票结果)"
    ∷ []

abbrev pub compile_doc_patterns : List DecisionPattern
compile_doc_patterns =
    pattern_of "adopt_solution" 75 "(采用|选用|使用|用)\\s*[，,。.\\s]*(方案|方式|方法|技术|框架|工具)"
    ∷ pattern_of "decided_action" 80 "(决定|确认|同意)\\s*(使用|采用|用|选|选择)"
    ∷ pattern_of "conclusion_statement" 75 "结论[是就]"
    ∷ pattern_of "approve_proposal" 80 "(同意|批准|通过)\\s*(这个|该|此)"
    ∷ pattern_of "rejection" 55 "(不|别|不用|不需要|没必要)\\s*(考虑|使用|采用|选)"
    ∷ pattern_of "doc_decision_section" 80 "#+\\s*(决定|结论|决策|方案选择|技术选型)"
    ∷ pattern_of "doc_architecture_section" 65 "#+\\s*(架构|设计|方案|技术方案)"
    ∷ pattern_of "doc_rationale_section" 55 "#+\\s*(理由|原因|依据|考量|权衡|对比)"
    ∷ pattern_of "doc_pros_cons" 55 "(优点|缺点|优势|劣势|Pros|Cons|好处|坏处)"
    ∷ pattern_of "doc_option_list" 50 "(方案[一二三123ABC]|Option\\s*[ABC]|对比项)"
    ∷ pattern_of "doc_tech_selection" 80 "(技术选型|框架选择|工具选择|数据库选型)"
    ∷ pattern_of "doc_final_recommendation" 85 "(最终推荐|推荐方案|建议方案|最终选择)"
    ∷ pattern_of "doc_tech_stack_statement" 75 "(技术栈|使用|采用|选用)[：:]\\s*\\S+"
    ∷ pattern_of "doc_tech_choice" 80
        "(使用|采用|选用|选择)\\s*(Gin|React|Vue|Go|Python|Java|MySQL|PostgreSQL|Redis|MongoDB|Kubernetes|Docker)"
    ∷ []

module _ (T : Texts) where
  unfoldable pub analyze_patterns : List DecisionPattern → String → List SignalDetail
  analyze_patterns [] content = []
  analyze_patterns (p ∷ patterns) content =
      let rest = analyze_patterns patterns content in
      elim (T.find p.regex content) [
        | none ↦ rest
        | some matched ↦ detail "pattern" p.name p.weight matched ∷ rest
      ]
