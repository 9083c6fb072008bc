-- ===== src/Config/Layers.antt =====
-- The value of an option, described without the loop that looks it up: the rule with the longest prefix
-- of the path, then the program, then the environment.
use karu.Base.{
  ◌≡◌, refl, ◌↔◌, inl, inr, true, none, some, Bytes, subst, find_in, text_key, Option-cases,
  &&-true, arith,
}
use karu.Config.Names.{canonical_option_name, canonical_vsi_path, path_prefix_matches}
use karu.Config.Builder.{PathOptions, ConfigBuilder}
use karu.Config.Snapshot.{best_rule, has_value, option}
use karu.Config.Rules.{
  Among, Longest, Unruled, Distinct, best_rule-Best, best_rule-Unruled, best_rule-Longest,
}

-- The value that the option of a name has for a path, and where it comes from.
pub data Supplied (s : ConfigBuilder) (path name fallback : Bytes) : Bytes → Type 0 where
  by_rule :
      (rule : PathOptions) (text : Bytes)
      → Among rule s.paths
      → path_prefix_matches path rule.prefix ≡ true
      → find_in rule.values name ≡ some text
      → Longest path name rule s.paths
      → Supplied s path name fallback text
  by_program :
      (text : Bytes)
      → Unruled path name s.paths
      → find_in s.explicit name ≡ some text
      → Supplied s path name fallback text
  by_environment :
      (text : Bytes)
      → Unruled path name s.paths
      → find_in s.explicit name ≡ none
      → find_in s.environment name ≡ some text
      → Supplied s path name fallback text
  by_default :
      Unruled path name s.paths
      → find_in s.explicit name ≡ none
      → find_in s.environment name ≡ none
      → Supplied s path name fallback fallback

-- The lookup finds a value that its description gives.
option-Supplied :
    (path name fallback : Bytes) (s : ConfigBuilder)
    → Supplied s
        (canonical_vsi_path path)
        (canonical_option_name name)
        fallback
        (option path name fallback s)
unfolding option
option-Supplied path name fallback s =
    let p = canonical_vsi_path path in
    let n = canonical_option_name name in
    let best = best_rule-Best p n s.paths none in
    elim (Option-cases (best_rule p n s.paths none)) [
      | inl e ↦
          let unruled = (best.absent e).1 in
          rw e elim (Option-cases (find_in s.explicit n)) [
            | inl x ↦ rw x elim (Option-cases (find_in s.environment n)) [
              | inl y ↦ rw y (by_default unruled x y)
              | inr (text, y) ↦ rw y (by_environment text unruled x y)
            ]
            | inr (text, x) ↦ rw x (by_program text unruled x)
          ]
      | inr (rule, e) ↦
          let (from, longest, _) = best.present rule e in
          rw e elim from [
            | inl absent ↦ cc absent
            | inr (among, holds) ↦
                let (matches, held) =
                  &&-true (path_prefix_matches p rule.prefix) (has_value (find_in rule.values n))
                    holds in
                elim (Option-cases (find_in rule.values n)) [
                  | inl x ↦ ground arith
                  | inr (text, x) ↦ rw x (by_rule rule text among matches x longest)
                ]
          ]
    ]

Supplied-option :
    (path name fallback v : Bytes) (s : ConfigBuilder)
    → Distinct s.paths
    → Supplied s (canonical_vsi_path path) (canonical_option_name name) fallback v
    → option path name fallback s ≡ v
unfolding option
Supplied-option path name fallback v s d (by_rule rule text among matches held longest) =
    rw (best_rule-Longest _ _ s.paths rule d among (rw (matches, held) refl) longest, held) refl
Supplied-option path name fallback v s d (by_program text unruled x) =
    rw (best_rule-Unruled _ _ s.paths unruled, x) refl
Supplied-option path name fallback v s d (by_environment text unruled x y) =
    rw (best_rule-Unruled _ _ s.paths unruled, x, y) refl
Supplied-option path name fallback v s d (by_default unruled x y) =
    rw (best_rule-Unruled _ _ s.paths unruled, x, y) refl

-- Where every rule has a prefix of its own, an option has for a path exactly the value that the rule
-- with the longest prefix of the path has for its name, or without such a rule the program, or the
-- environment, or else the fallback.
pub option-Supplied_iff :
    (path name fallback v : Bytes) (s : ConfigBuilder)
    → Distinct s.paths
    → (option path name fallback s ≡ v)
      ↔ Supplied s (canonical_vsi_path path) (canonical_option_name name) fallback v
option-Supplied_iff path name fallback v s d = (
  λ e.
      subst (Supplied s (canonical_vsi_path path) (canonical_option_name name) fallback) e
        (option-Supplied path name fallback s),
  Supplied-option path name fallback v s d,
)
