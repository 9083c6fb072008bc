-- ===== src/Config/Invariant.antt =====
-- What every builder has that is made by ConfigBuilder's operations.
use karu.Base.{
  ℕ, ◌≡◌, refl, sym, subst, inl, inr, Bool, true, false, ◌||◌, Option, none, some, List, [], ◌∷◌,
  Bytes, codes, text_eq, text_eq_refl, starts_with, value, All, find_in, text_key, All-assign,
  All-erase, All-try_emplace, All-find_in, Bool-cases, Option-cases, arith,
}
use karu.Config.Names.{
  canonical_option_name, canonical_vsi_path, known_option, for_each_environment, visit,
}
use karu.Config.Builder.{
  OptionMap, PathOptions, ConfigBuilder, put, put_rule, set, set_path, set_provider, make_builder,
  from_environment, read_variable, set_and_not_empty,
}
use karu.Config.Snapshot.{option}
use karu.Config.Rules.{Distinct, Unruled, best_rule-Unruled}
use karu.Config.Spellings.{names, for_each_environment-visit}

-- The builders that the operations make.
pub data Built (getenv : Bytes → Option Bytes) (is_regular_file : Bytes → Bool)
    : ConfigBuilder → Type 0 where
  made :
      (include_environment : Bool)
      → Built getenv is_regular_file (make_builder getenv is_regular_file include_environment)
  then_set :
      (b b' : ConfigBuilder) (name : Bytes) (text : Option Bytes)
      → Built getenv is_regular_file b
      → set name text b ≡ value b'
      → Built getenv is_regular_file b'
  then_set_path :
      (b b' : ConfigBuilder) (prefix name : Bytes) (text : Option Bytes)
      → Built getenv is_regular_file b
      → set_path prefix name text b ≡ value b'
      → Built getenv is_regular_file b'
  then_set_provider :
      (b b' : ConfigBuilder) (kind : ℕ) (function user_data release : Option ℕ)
      → Built getenv is_regular_file b
      → set_provider kind function user_data release b ≡ value b'
      → Built getenv is_regular_file b'

-- An option that may be set for one path.
abbrev pub IsLocal : Bytes × Bytes → Type 0
IsLocal entry = (known_option entry.0 ≡ true) × (starts_with entry.0 (codes "KARU_") ≡ false)

abbrev pub IsKnown : Bytes × Bytes → Type 0
IsKnown entry = known_option entry.0 ≡ true

pub record IsValid (b : ConfigBuilder) : Type 0 where
  pub environment_known : All IsKnown b.environment
  pub explicit_known : All IsKnown b.explicit
  pub rules_local : All (λ rule. All IsLocal rule.values) b.paths
  pub prefixes_distinct : Distinct b.paths

All-put :
    (P : Bytes × Bytes → Type 0) (values : OptionMap) (name : Bytes) (text : Option Bytes)
    → ((v : Bytes) → P (name, v))
    → All P values
    → All P (put values name text)
All-put P values name none p h = All-erase P values name h
All-put P values name (some text) p h = All-assign P values name text (p text) h

module _ (prefix name : Bytes) (text : Option Bytes) where
  put_rule-All :
      (P : Bytes × Bytes → Type 0) (rules : List PathOptions)
      → ((v : Bytes) → P (name, v))
      → All (λ rule. All P rule.values) rules
      → All (λ rule. All P rule.values) (put_rule rules prefix name text)
  put_rule-All P [] p h = (All-put P [] name text p tt, tt)
  put_rule-All P (rule ∷ rules) p (hr, h) = elim (Bool-cases (text_eq rule.prefix prefix)) [
    | inl t ↦ rw t (All-put P rule.values name text p hr, h)
    | inr t ↦ rw t (hr, put_rule-All P rules p h)
  ]

  put_rule-apart :
      (other : PathOptions) (rules : List PathOptions)
      → text_eq other.prefix prefix ≡ false
      → All (λ b. text_eq other.prefix b.prefix ≡ false) rules
      → All (λ b. text_eq other.prefix b.prefix ≡ false) (put_rule rules prefix name text)
  put_rule-apart other [] e h = (e, tt)
  put_rule-apart other (rule ∷ rules) e (hr, h) = elim (Bool-cases (text_eq rule.prefix prefix)) [
    | inl t ↦ rw t (hr, h)
    | inr t ↦ rw t (hr, put_rule-apart other rules e h)
  ]

  put_rule-Distinct :
      (rules : List PathOptions) → Distinct rules → Distinct (put_rule rules prefix name text)
  put_rule-Distinct [] h = (tt, tt)
  put_rule-Distinct (rule ∷ rules) (hr, h) = elim (Bool-cases (text_eq rule.prefix prefix)) [
    | inl t ↦ rw t (hr, h)
    | inr t ↦ rw t (put_rule-apart rule rules t hr, put_rule-Distinct rules h)
  ]

-- A visit that only ever turns true stays true.
visit-true :
    (p : Bytes → Bool) (xs : List Bytes) (known : Bool)
    → known ≡ true
    → visit (λ x known. known || p x) xs known ≡ true
visit-true p [] known e = e
visit-true p (x ∷ xs) known e = visit-true p xs (known || p x) (ground arith)

-- Every name that is visited is known by its canonical name.
visit-each :
    (xs : List Bytes) (known : Bytes → Bool)
    → All
        (λ name.
          visit
            (λ x known. known || text_eq (canonical_option_name x) (canonical_option_name name))
            xs
            (known name)
          ≡ true)
        xs
visit-each [] known = tt
visit-each (x ∷ xs) known = (
  visit-true (λ y. text_eq (canonical_option_name y) (canonical_option_name x)) xs _
      (ground (arith, text_eq_refl (canonical_option_name x))),
  visit-each xs (λ n. known n || text_eq (canonical_option_name x) (canonical_option_name n)),
)

names-known : All (λ name. known_option (canonical_option_name name) ≡ true) names
unfolding known_option for_each_environment
names-known = visit-each names (λ _. false)

visit-read_variable-IsKnown :
    (getenv : Bytes → Option Bytes) (xs : List Bytes) (environment : OptionMap)
    → All (λ name. known_option (canonical_option_name name) ≡ true) xs
    → All IsKnown environment
    → All IsKnown (visit (read_variable getenv) xs environment)
unfolding read_variable
visit-read_variable-IsKnown getenv [] environment _ h = h
visit-read_variable-IsKnown getenv (x ∷ xs) environment (known, each) h =
    visit-read_variable-IsKnown getenv xs _ each
      (elim (Option-cases (set_and_not_empty (getenv x))) [
        | inl e ↦ rw (read_variable, e) h
        | inr (text, e) ↦ rw (read_variable, e) (All-try_emplace IsKnown environment _ text known h)
      ])

set-value :
    (name : Bytes) (text : Option Bytes) (b b' : ConfigBuilder)
    → set name text b ≡ value b'
    → (known_option (canonical_option_name name) ≡ true)
      × (b' ≡ record b { explicit = put b.explicit (canonical_option_name name) text })
unfolding set
set-value name text b b' h = (ground arith, ground arith)

set_path-value :
    (prefix name : Bytes) (text : Option Bytes) (b b' : ConfigBuilder)
    → set_path prefix name text b ≡ value b'
    → IsLocal (canonical_option_name name, prefix)
      × (b' ≡ record b {
        paths = put_rule b.paths (canonical_vsi_path prefix) (canonical_option_name name) text;
      })
unfolding set_path
set_path-value prefix name text b b' h = ((ground arith, ground arith), ground arith)

-- A provider changes no option.
set_provider-value :
    (kind : ℕ) (function user_data release : Option ℕ) (b b' : ConfigBuilder)
    → set_provider kind function user_data release b ≡ value b'
    → b' ≡ record b { providers = b'.providers }
unfolding set_provider
set_provider-value kind none user_data release b b' h = ground arith
set_provider-value kind (some f) user_data release b b' h = ground arith

module _ (getenv : Bytes → Option Bytes) (is_regular_file : Bytes → Bool) where
  Built-IsValid : (b : ConfigBuilder) → Built getenv is_regular_file b → IsValid b
  unfolding make_builder from_environment set set_path set_provider
  Built-IsValid b (made false) = record {
    environment_known = tt;
    explicit_known = tt;
    rules_local = tt;
    prefixes_distinct = tt;
  }
  Built-IsValid b (made true) = record {
    environment_known =
        subst (All IsKnown) (sym (for_each_environment-visit (read_variable getenv) []))
          (visit-read_variable-IsKnown getenv names [] names-known tt);
    explicit_known = tt;
    rules_local = tt;
    prefixes_distinct = tt;
  }
  Built-IsValid b' (then_set b _ name text built h) =
      let old = Built-IsValid b built in
      let (known, e) = set-value name text b b' h in
      subst IsValid (sym e) (record {
        environment_known = old.environment_known;
        rules_local = old.rules_local;
        prefixes_distinct = old.prefixes_distinct;
        explicit_known = All-put IsKnown b.explicit _ text (λ v. known) old.explicit_known;
      })
  Built-IsValid b' (then_set_path b _ prefix name text built h) =
      let old = Built-IsValid b built in
      let (local, e) = set_path-value prefix name text b b' h in
      subst IsValid (sym e) (record {
        environment_known = old.environment_known;
        explicit_known = old.explicit_known;
        rules_local = put_rule-All _ _ text IsLocal b.paths (λ v. local) old.rules_local;
        prefixes_distinct = put_rule-Distinct _ _ text b.paths old.prefixes_distinct;
      })
  Built-IsValid b' (then_set_provider b _ kind function user_data release built h) =
      let old = Built-IsValid b built in
      subst IsValid (sym (set_provider-value kind function user_data release b b' h)) (record {
        environment_known = old.environment_known;
        explicit_known = old.explicit_known;
        rules_local = old.rules_local;
        prefixes_distinct = old.prefixes_distinct;
      })

unruled :
    (path name : Bytes) (rules : List PathOptions)
    → starts_with name (codes "KARU_") ≡ true
    → All (λ rule. All IsLocal rule.values) rules
    → Unruled path name rules
unruled path name [] e _ = tt
unruled path name (rule ∷ rules) e (hr, h) = (
  elim (Option-cases (find_in rule.values name)) [
    | inl n ↦ ground arith
    | inr (text, n) ↦ let local = All-find_in IsLocal rule.values name text hr n in ground arith
  ],
  unruled path name rules e h,
)

-- In every builder that the operations make, an option whose name starts with KARU_ has one value for
-- all paths.
pub option-client_wide :
    (getenv : Bytes → Option Bytes) (is_regular_file : Bytes → Bool) (b : ConfigBuilder)
    (path name fallback : Bytes)
    → Built getenv is_regular_file b
    → starts_with (canonical_option_name name) (codes "KARU_") ≡ true
    → option path name fallback b ≡ option [] name fallback b
unfolding option
option-client_wide getenv is_regular_file b path name fallback built e =
    let local = (Built-IsValid getenv is_regular_file b built).rules_local in
    rw
      (
        best_rule-Unruled _ _ b.paths (unruled (canonical_vsi_path path) _ b.paths e local),
        best_rule-Unruled _ _ b.paths (unruled (canonical_vsi_path []) _ b.paths e local),
      )
      refl
