-- ===== src/Storage/RoundTrip.antt =====
-- Files written and read back (internal/storage/git/format.go).
use feishu_agent_mem.Prelude.{
  ◌≡◌, refl, ◌∙◌, arith, String, str_append, str_eq, List, [], ◌∷◌, ◌++◌, Bool, true, false, not,
  ◌&&◌, ltb, All, ok, trim_space, scan_lines, scan_lines-append, has_newline, unlines, is_empty,
  size, eq_iff,
}
use Prim.Native.String.append
use text.Mathlib.TextLemmas.{append_assoc}
use feishu_agent_mem.Decision.Types.{DecisionNode}
use feishu_agent_mem.Storage.Format.{
  Yaml, render_file, parse_file, frontmatter, inside_frontmatter, scanned, concat, drop_cr, is_rule,
  max_scan_token_size, decision_body, render_decision_file, parse_decision_file,
}

-- The scanner gives this line back as it is.
unfoldable pub is_scanned : String → Bool
unfolding has_newline size drop_cr
is_scanned line =
    not (has_newline line) && ltb (size line) max_scan_token_size && str_eq (drop_cr line) line

-- Such a line that does not end the front matter.
unfoldable pub is_plain : String → Bool
unfolding is_scanned is_rule
is_plain line = is_scanned line && not (is_rule line)

abbrev pub IsPlain : String → Type 0
IsPlain line = is_plain line ≡ true

scanned-line :
    (line rest : String)
    → is_scanned line ≡ true
    → scanned (scan_lines (str_append line (str_append "\n" rest)))
      ≡ line ∷ scanned (scan_lines rest)
unfolding is_scanned scanned
scanned-line line rest h =
    rw (scan_lines-append line rest (ground (arith, h)))
      (ground (arith, h, eq_iff (drop_cr line) line))

scanned-unlines :
    (front : List String) (rest : String)
    → All (λ line. is_scanned line ≡ true) front
    → scanned (scan_lines (str_append (unlines front) rest)) ≡ front ++ scanned (scan_lines rest)
unfolding unlines
scanned-unlines [] rest h = rw (append.nil rest) refl
scanned-unlines (line ∷ front) rest h =
    rw
      (
        append_assoc line (str_append "\n" (unlines front)) rest,
        append_assoc "\n" (unlines front) rest,
        scanned-line line (str_append (unlines front) rest) h.0,
        scanned-unlines front rest h.1,
      )
      refl

rule_line : (is_scanned "---" ≡ true) × (is_rule "---" ≡ true)
unfolding is_scanned is_rule trim_space
rule_line = (refl, refl)

scanned-rule :
    (rest : String)
    → scanned (scan_lines (str_append "---\n" rest)) ≡ "---" ∷ scanned (scan_lines rest)
scanned-rule rest = rw (append_assoc "---" "\n" rest) (scanned-line "---" rest rule_line.0)

-- The front matter ends at its first rule.
inside_frontmatter-append :
    (front : List String) (rule : String) (rest : List String)
    → All IsPlain front
    → is_rule rule ≡ true
    → inside_frontmatter (front ++ rule ∷ rest) ≡ unlines front
unfolding inside_frontmatter unlines is_plain
inside_frontmatter-append [] rule rest h r = ground (arith, r)
inside_frontmatter-append (line ∷ front) rule rest h r =
    ground (arith, h.0, inside_frontmatter-append front rule rest h.1 r)

All-is_scanned :
    (front : List String) → All IsPlain front → All (λ line. is_scanned line ≡ true) front
unfolding is_plain
All-is_scanned [] h = tt
All-is_scanned (line ∷ front) h = (ground (arith, h.0), All-is_scanned front h.1)

frontmatter-append :
    (front : List String) (rule rest : String)
    → All IsPlain front
    → is_scanned rule ≡ true
    → is_rule rule ≡ true
    → frontmatter (
        scanned (
          scan_lines (
            str_append "---\n"
              (str_append (unlines front) (str_append rule (str_append "\n" rest))))))
      ≡ unlines front
unfolding frontmatter
frontmatter-append front rule rest h s r =
    rw
      (
        scanned-rule (str_append (unlines front) (str_append rule (str_append "\n" rest))),
        scanned-unlines front (str_append rule (str_append "\n" rest)) (All-is_scanned front h),
        scanned-line rule rest s,
      )
      (inside_frontmatter-append front rule (scanned (scan_lines rest)) h r)

-- An encoding that begins with a line is not empty.
is_empty-unlines : (line : String) (front : List String) → is_empty (unlines (line ∷ front)) ≡ false
unfolding is_empty unlines
is_empty-unlines String.[] front =
    rw (append.nil (str_append "\n" (unlines front)), append.cons "\n" "" (unlines front)) refl
is_empty-unlines (String.◌∷◌ c line) front =
    rw (append.cons c line (str_append "\n" (unlines front))) refl

module _ {A : Type 0} (yaml : Yaml A) (body : List String) (a : A) where
  -- A file reads as the lines of its encoding before the first rule.
  pub parse_file-render_file_cut :
      (line : String) (front : List String) (rule rest : String)
      → All IsPlain (line ∷ front)
      → is_scanned rule ≡ true
      → is_rule rule ≡ true
      → yaml.encode a ≡ str_append (unlines (line ∷ front)) (str_append rule (str_append "\n" rest))
      → parse_file yaml (render_file yaml body a) ≡ yaml.unmarshal (unlines (line ∷ front))
  unfolding parse_file render_file
  parse_file-render_file_cut line front rule rest h s r e =
      let tail : String = str_append "---\n" (str_append "\n" (concat body)) in
      rw
        (
          e,
          append_assoc (unlines (line ∷ front)) (str_append rule (str_append "\n" rest)) tail,
          append_assoc rule (str_append "\n" rest) tail,
          append_assoc "\n" rest tail,
          frontmatter-append (line ∷ front) rule (str_append rest tail) h s r,
          is_empty-unlines line front,
        )
        refl

  -- A file reads as its encoding, when no line of that is a rule.
  pub parse_file-render_file :
      (line : String) (front : List String)
      → All IsPlain (line ∷ front)
      → yaml.encode a ≡ unlines (line ∷ front)
      → parse_file yaml (render_file yaml body a) ≡ yaml.unmarshal (yaml.encode a)
  unfolding parse_file render_file
  parse_file-render_file line front h e =
      rw
        (
          e,
          append_assoc "---" "\n" (str_append "\n" (concat body)),
          frontmatter-append (line ∷ front) "---" (str_append "\n" (concat body)) h rule_line.0
              rule_line.1,
          is_empty-unlines line front,
        )
        refl

-- A decision whose YAML has lines that the scanner gives back, none of them a rule when trimmed,
-- and which the YAML library reads back, is read back from its file.
pub parse-render_decision_file :
    (yaml : Yaml DecisionNode) (d : DecisionNode) (line : String) (front : List String)
    → All IsPlain (line ∷ front)
    → yaml.encode d ≡ unlines (line ∷ front)
    → yaml.unmarshal (yaml.encode d) ≡ ok d
    → parse_decision_file yaml (render_decision_file yaml d) ≡ ok d
unfolding parse_decision_file render_decision_file
parse-render_decision_file yaml d line front h e u =
    parse_file-render_file yaml (decision_body d) d line front h e ∙ u

-- When a line of the YAML is three dashes once trimmed, as a line of a long text that is indented
-- may be, the file reads as the YAML before that line: the fields from there on are lost.
pub parse-render_decision_file_cut :
    (yaml : Yaml DecisionNode) (d : DecisionNode) (line : String) (front : List String)
    (rule rest : String)
    → All IsPlain (line ∷ front)
    → is_scanned rule ≡ true
    → is_rule rule ≡ true
    → yaml.encode d ≡ str_append (unlines (line ∷ front)) (str_append rule (str_append "\n" rest))
    → parse_decision_file yaml (render_decision_file yaml d)
      ≡ yaml.unmarshal (unlines (line ∷ front))
unfolding parse_decision_file render_decision_file
parse-render_decision_file_cut yaml d line front rule rest h s r e =
    parse_file-render_file_cut yaml (decision_body d) d line front rule rest h s r e
