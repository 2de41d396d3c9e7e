-- ===== src/Storage/ReadBack.antt =====
-- A decision written and read back through `GitStorage` (internal/storage/git/git_storage.go).
use feishu_agent_mem.Prelude.{
  Option, ℕ, ◌≡◌, refl, ◌∙◌, ap, sym, subst, arith, String, str_append, str_eq, eq_iff, List, [],
  ◌∷◌, false, Bool-cases, Option-cases, Result-cases, inl, inr, Result, ok, err, none, unlines, All,
  is_empty,
}
use Prim.Native.Char.{Char}
use Prim.Native.String.append
use text.Mathlib.TextLemmas.{nil≢cons}
use feishu_agent_mem.Decision.Types.{DecisionNode, Objection}
use feishu_agent_mem.Decision.Node.{get_decision_branch}
use feishu_agent_mem.Storage.Format.{Yaml, render_decision_file, parse_decision_file}
use feishu_agent_mem.Storage.Names.{decision_path, decision_dir, format_commit_message, with_count}
use feishu_agent_mem.Storage.RoundTrip.{IsPlain, parse-render_decision_file}
use feishu_agent_mem.Storage.Cli.{World, then_call, run, run_only, commit_path, file_call, answer}
use feishu_agent_mem.Storage.Laws.{IsLawful, words, ask_count, push_base, current}
use feishu_agent_mem.Storage.Saving.{Stays, Stays-run, Stays-commit_path}
use feishu_agent_mem.Storage.Arriving.{Arrived-prepare}
use feishu_agent_mem.Storage.Store.{
  Config, save_decision, write_decision, read_decision, auto_pushed, push, prepare, rev_list_count,
}

cons-named : (c : Char) (s t : String) → str_eq "" (str_append (String.◌∷◌ c s) t) ≡ false
cons-named c s t = elim (Bool-cases (str_eq "" (str_append (String.◌∷◌ c s) t))) [
  | inl h ↦ absurd (nil≢cons ((eq_iff "" (str_append (String.◌∷◌ c s) t)).0 h ∙ append.cons c s t))
  | inr h ↦ h
]

-- The branch of a decision has a name.
pub get_decision_branch_named : (d : DecisionNode) → str_eq "" (get_decision_branch d) ≡ false
unfolding get_decision_branch
get_decision_branch_named d =
    ground (arith, eq_iff d.branch "", eq_iff "" d.branch, cons-named "d" "ecision/" d.sdr_id)

version-with_count :
    (r : Result String) (d : DecisionNode)
    → with_count r d ≡ record d { version = (with_count r d).version }
unfolding with_count
version-with_count r d = ground arith

module _ (W : World) where
  file_call_fine :
      (act : W.State → Option String × W.State) (s : W.State)
      → (act s).0 ≡ none
      → file_call W act s ≡ (ok tt, (act s).1)
  unfolding file_call
  file_call_fine act s h = rw (h, file_call) refl

  then_call_ok :
      {A B : Type 0} (call : W.State → Result A × W.State) (next : A → W.State → Result B × W.State)
      (s : W.State) {a : A} {t : W.State}
      → call s ≡ (ok a, t)
      → then_call W call next s ≡ next a t
  unfolding then_call
  then_call_ok call next s h = ap (λ r. elim r.0 [ err e ↦ (err e, r.1) | ok b ↦ next b r.1 ]) h

module _ (W : World) (yaml : Yaml DecisionNode) (objections : Yaml Objection) (config : Config)
    (d : DecisionNode)
    (law : IsLawful W config.branch
      (decision_path d.project d.topic d.sdr_id)
      (decision_dir d.project d.topic)
      (get_decision_branch d)) where
  -- The answer to the count of the versions, and the decision with which a prepared write saves.
  abbrev counted : W.State → Result String × W.State
  counted s =
      rev_list_count W yaml objections config (get_decision_branch d)
        (prepare W yaml objections config d s).1

  abbrev final : W.State → DecisionNode
  final s = with_count (counted s).0 d

  abbrev saved : W.State → Result String × W.State
  saved s = save_decision W yaml objections config (final s) (counted s).1

  -- A write without an error was prepared without one.
  write_decision_ok :
      (s : W.State) {hash : String}
      → (write_decision W yaml objections config d s).outcome ≡ ok hash
      → ((prepare W yaml objections config d s).0 ≡ ok tt)
        × ((saved s).0 ≡ ok hash)
        × ((write_decision W yaml objections config d s).version ≡ (final s).version)
        × ((write_decision W yaml objections config d s).repo
            ≡ auto_pushed W yaml objections config (saved s))
  unfolding write_decision
  write_decision_ok s h = elim (Result-cases (prepare W yaml objections config d s).0) [
    | inl e ↦ ground (arith, h, e.1)
    | inr fine ↦ ground (arith, h, fine.1)
  ]

  Stays-auto_pushed :
      (r : Result String × W.State)
      → law.Settled r.1
      → Stays W law r.1 (auto_pushed W yaml objections config r)
  unfolding auto_pushed push run_only then_call answer words
  Stays-auto_pushed (err e, s) h = (h, refl, refl)
  Stays-auto_pushed (ok hash, s) h =
      let args = "push" ∷ "-u" ∷ "origin" ∷ config.branch ∷ [] in
      let pushed = Stays-run W law push_base s h in
      elim (Bool-cases (is_empty config.remote)) [
        | inl local ↦
            rw (local, auto_pushed)
              (elim (Bool-cases config.auto_push) [
                | inl on ↦ rw (on, auto_pushed) (h, refl, refl)
                | inr off ↦ rw (off, auto_pushed) (h, refl, refl)
              ])
        | inr remote ↦ elim (Bool-cases config.auto_push) [
          | inr off ↦ rw (off, auto_pushed) (h, refl, refl)
          | inl on ↦ elim (Result-cases (run W args s).0) [
            | inl e ↦ rw (remote, on, auto_pushed, push, run_only, then_call, e.1) pushed
            | inr out ↦ rw (remote, on, auto_pushed, push, run_only, then_call, out.1) pushed
          ]
        ]
      ]

  write_ok :
      (v : DecisionNode) (s : W.State) {hash : String}
      → (save_decision W yaml objections config v s).0 ≡ ok hash
      → (W.write_file (decision_path v.project v.topic v.sdr_id) (render_decision_file yaml v) s).0
        ≡ none
  unfolding save_decision then_call file_call
  write_ok v s h =
      let path = decision_path v.project v.topic v.sdr_id in
      elim (Option-cases (W.write_file path (render_decision_file yaml v) s).0) [
        | inl fine ↦ fine
        | inr e ↦ ground (arith, h, e.1)
      ]

  save_decision_fine :
      (v : DecisionNode) (s : W.State)
      → (W.write_file (decision_path v.project v.topic v.sdr_id) (render_decision_file yaml v) s).0
        ≡ none
      → save_decision W yaml objections config v s
        ≡ commit_path W
            (decision_path v.project v.topic v.sdr_id)
            (format_commit_message "decision" v)
            (W.write_file
              (decision_path v.project v.topic v.sdr_id)
              (render_decision_file yaml v)
              s).1
  unfolding save_decision
  save_decision_fine v s h =
      let path = decision_path v.project v.topic v.sdr_id in
      let write = W.write_file path (render_decision_file yaml v) in
      then_call_ok W (file_call W write)
        (λ _. commit_path W path (format_commit_message "decision" v)) s
        (file_call_fine W write s h)

  -- Saved without an error, the decision is in its file, on the branch where the save began.
  abbrev IsSaved : W.State → String → DecisionNode → Type 0
  IsSaved s hash v =
      (save_decision W yaml objections config v s).0 ≡ ok hash
      → law.Settled (save_decision W yaml objections config v s).1
        × (W.read_file (decision_path d.project d.topic d.sdr_id)
              (save_decision W yaml objections config v s).1
            ≡ ok (render_decision_file yaml v))
        × (current W (save_decision W yaml objections config v s).1 ≡ current W s)

  IsSaved-version :
      (n : ℕ) (s : W.State) {hash : String}
      → law.Settled s
      → IsSaved s hash (record d { version = n })
  IsSaved-version n s h i =
      let v = record d { version = n } in
      let text = render_decision_file yaml v in
      let wrote = W.write_file (decision_path d.project d.topic d.sdr_id) text s in
      let message = format_commit_message "decision" v in
      let kept = Stays-commit_path W law message wrote.1 (law.settled-write text s h) in
      let fine = write_ok v s i in
      let write = W.write_file (decision_path d.project d.topic d.sdr_id) text in
      rw (save_decision_fine v s fine)
        (kept.0, kept.1 ∙ law.read-write text s h fine, kept.2 ∙ law.current-write text s h)

  -- What a write without an error leaves: a settled state on the branch of the decision, with its
  -- file at its final version.
  pub write_decision_lem :
      (s : W.State) {hash : String}
      → law.Settled s
      → (write_decision W yaml objections config d s).outcome ≡ ok hash
      → (W.read_file
            (decision_path d.project d.topic d.sdr_id)
            (write_decision W yaml objections config d s).repo
          ≡ ok (
              render_decision_file yaml
                (record d { version = (write_decision W yaml objections config d s).version })))
        × (current W (write_decision W yaml objections config d s).repo
            ≡ ok (get_decision_branch d))
  unfolding rev_list_count words
  write_decision_lem s h i =
      let parts = write_decision_ok s i in
      let ready = prepare W yaml objections config d s in
      let came = Arrived-prepare W yaml objections config d law (get_decision_branch_named d) s h in
      let asked = Stays-run W law ask_count ready.1 came.0 in
      let same = version-with_count (counted s).0 d in
      let stored =
        subst (IsSaved (counted s).1 _) (sym same)
          (IsSaved-version (final s).version (counted s).1 asked.0) parts.1 in
      let pushed = Stays-auto_pushed (saved s) stored.0 in
      rw (parts.3, parts.2)
        (
          pushed.1 ∙ stored.1 ∙ ap (λ v. ok (render_decision_file yaml v)) same,
          pushed.2 ∙ stored.2 ∙ asked.2 ∙ came.1 parts.0,
        )

  -- A file at the path of a decision is what a read of it parses.
  read_decision-file :
      (text : String) (s : W.State)
      → W.read_file (decision_path d.project d.topic d.sdr_id) s ≡ ok text
      → read_decision W yaml objections config d.project d.topic d.sdr_id s
        ≡ parse_decision_file yaml text
  unfolding read_decision
  read_decision-file text s h = rw (h, read_decision) refl

  -- In a settled state, a decision that was written without an error is read back with the version
  -- of the write and the hash it had before, when the YAML library reads back what it writes of it,
  -- in lines that the scanner gives back and of which none is a rule when trimmed.
  pub read_decision-write_decision :
      (s : W.State) {hash : String} (line : String) (front : List String)
      → law.Settled s
      → (write_decision W yaml objections config d s).outcome ≡ ok hash
      → All IsPlain (line ∷ front)
      → yaml.encode (record d { version = (write_decision W yaml objections config d s).version })
        ≡ unlines (line ∷ front)
      → yaml.unmarshal (
          yaml.encode
            (record d { version = (write_decision W yaml objections config d s).version }))
        ≡ ok (record d { version = (write_decision W yaml objections config d s).version })
      → read_decision W yaml objections config d.project d.topic d.sdr_id
          (write_decision W yaml objections config d s).repo
        ≡ ok (record d { version = (write_decision W yaml objections config d s).version })
  read_decision-write_decision s line front h i plain e u =
      let final = record d { version = (write_decision W yaml objections config d s).version } in
      read_decision-file _ (write_decision W yaml objections config d s).repo
        (write_decision_lem s h i).0
      ∙ parse-render_decision_file yaml final line front plain e u
