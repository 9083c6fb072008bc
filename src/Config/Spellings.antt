-- ===== src/Config/Spellings.antt =====
-- The variables of the environment that src/config.cpp reads for an option, and which of them counts.
use karu.Base.{
  ◌≡◌, refl, ap, ◌∙◌, inl, inr, Bool, true, Option, none, List, [], ◌∷◌, ◌++◌, Bytes, text_eq,
  if◌then◌else◌, find_in, text_key, or_else, try_emplace, find_in-try_emplace, Option-cases, arith,
}
use karu.Config.Names.{
  canonical_option_name, for_each_environment, visit, core, s3, gcs, azure, hugging_face, source,
  http,
}
use karu.Config.Builder.{
  OptionMap, make_builder, from_environment, read_variable, set_and_not_empty,
}

-- The names of the tables.
abbrev pub names : List Bytes
names = core ++ (s3 ++ (gcs ++ (azure ++ (hugging_face ++ (source ++ http)))))

pub for_each_environment-visit {ℓ} :
    {A : Type ℓ} (f : Bytes → A → A) (a : A) → for_each_environment f a ≡ visit f names a
unfolding for_each_environment
for_each_environment-visit f a = refl

-- The first variable of the name's spellings that is set and not empty.
abbrev pub first_set : (Bytes → Option Bytes) → List Bytes → Bytes → Option Bytes
first_set getenv [] name = none
first_set getenv (x ∷ xs) name =
    let later = first_set getenv xs name in
    if text_eq (canonical_option_name x) name
    then or_else (set_and_not_empty (getenv x)) later
    else later

find_in-visit-read_variable :
    (getenv : Bytes → Option Bytes) (xs : List Bytes) (environment : OptionMap) (name : Bytes)
    → find_in (visit (read_variable getenv) xs environment) name
      ≡ or_else (find_in environment name) (first_set getenv xs name)
unfolding read_variable
find_in-visit-read_variable getenv [] environment name = ground arith
find_in-visit-read_variable getenv (x ∷ xs) environment name =
    elim (Option-cases (set_and_not_empty (getenv x))) [
      | inl e ↦ ground (arith, find_in-visit-read_variable getenv xs environment name)
      | inr (text, e) ↦ ground (
        arith,
        find_in-visit-read_variable getenv xs
            (try_emplace environment (canonical_option_name x) text) name,
        find_in-try_emplace environment (canonical_option_name x) text name,
      )
    ]

-- In the environment the first spelling of an option wins that is set and not empty, in the order of
-- the tables.
pub make_builder-first_set :
    (getenv : Bytes → Option Bytes) (is_regular_file : Bytes → Bool) (name : Bytes)
    → find_in (make_builder getenv is_regular_file true).environment name
      ≡ first_set getenv names name
unfolding make_builder from_environment
make_builder-first_set getenv is_regular_file name =
    ap (λ m. find_in m name) (for_each_environment-visit (read_variable getenv) [])
    ∙ find_in-visit-read_variable getenv names [] name
