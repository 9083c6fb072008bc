-- ===== src/Config/Changes.antt =====
-- The operations of ConfigBuilder as changes of a function from layers and names to values, and what
-- every builder that they make has.
use karu.Base.{
  ◌≡◌, Bool, true, false, ◌&&◌, Option, none, some, List, [], ◌∷◌, Bytes, text_eq, text_eq_sound,
  text_eq_refl, if◌then◌else◌, Expected, value, find_in, text_key, find_in-assign, find_in-erase,
  arith,
}
use karu.Config.Names.{canonical_option_name, canonical_vsi_path}
use karu.Config.Builder.{OptionMap, PathOptions, ConfigBuilder, put, put_rule, set, set_path}

-- Where a value is held: at a prefix, by the program or in the environment.
pub data Layer : Type 0 where
  at_path : Bytes → Layer
  program environment : Layer

abbrev pub same_layer : Layer → Layer → Bool
same_layer (at_path p) (at_path q) = text_eq p q
same_layer program program = true
same_layer environment environment = true
same_layer _ _ = false

abbrev held_at : List PathOptions → Bytes → Bytes → Option Bytes
held_at [] prefix name = none
held_at (rule ∷ rules) prefix name =
    let later = held_at rules prefix name in
    if text_eq rule.prefix prefix then find_in rule.values name else later

-- The options as a function.
abbrev pub held : ConfigBuilder → Layer → Bytes → Option Bytes
held b (at_path prefix) name = held_at b.paths prefix name
held b program name = find_in b.explicit name
held b environment name = find_in b.environment name

find_in-put :
    (values : OptionMap) (name : Bytes) (text : Option Bytes) (k : Bytes)
    → find_in (put values name text) k ≡ (if text_eq name k then text else find_in values k)
find_in-put values name none k = find_in-erase values name k
find_in-put values name (some text) k = find_in-assign values name text k

held_at-put_rule :
    (rules : List PathOptions) (prefix name : Bytes) (text : Option Bytes) (q k : Bytes)
    → held_at (put_rule rules prefix name text) q k
      ≡ (if text_eq prefix q && text_eq name k then text else held_at rules q k)
held_at-put_rule [] prefix name text q k = ground (arith, find_in-put [] name text k)
held_at-put_rule (rule ∷ rules) prefix name text q k = ground (
  arith,
  held_at-put_rule rules prefix name text q k,
  find_in-put rule.values name text k,
  text_eq_sound rule.prefix prefix,
  text_eq_sound rule.prefix q,
  text_eq_sound prefix q,
  text_eq_refl prefix,
)

-- A change of one option, for a path or of the program.
pub data Change : Type 0 where
  change_path : (prefix name : Bytes) → Option Bytes → Change
  change : (name : Bytes) → Option Bytes → Change

abbrev pub apply : Change → ConfigBuilder → Expected Bytes ConfigBuilder
apply (change_path prefix name text) b = set_path prefix name text b
apply (change name text) b = set name text b

abbrev pub layer_of : Change → Layer
layer_of (change_path prefix name text) = at_path (canonical_vsi_path prefix)
layer_of (change name text) = program

abbrev pub name_of : Change → Bytes
name_of (change_path prefix name text) = canonical_option_name name
name_of (change name text) = canonical_option_name name

abbrev pub text_of : Change → Option Bytes
text_of (change_path prefix name text) = text
text_of (change name text) = text

-- A change that is taken gives its option the new value, or none, in its layer under the canonical
-- name, and leaves every other option of every layer as it was.
pub apply-held :
    (c : Change) (b b' : ConfigBuilder) (layer : Layer) (name : Bytes)
    → apply c b ≡ value b'
    → held b' layer name ≡ (
        if same_layer (layer_of c) layer && text_eq (name_of c) name
        then text_of c
        else held b layer name)
unfolding set set_path
apply-held (change_path prefix k text) b b' (at_path q) name h = ground (
  arith,
  held_at-put_rule b.paths (canonical_vsi_path prefix) (canonical_option_name k) text q name,
)
apply-held (change_path prefix k text) b b' program name h = ground arith
apply-held (change_path prefix k text) b b' environment name h = ground arith
apply-held (change k text) b b' (at_path q) name h = ground arith
apply-held (change k text) b b' program name h =
    ground (arith, find_in-put b.explicit (canonical_option_name k) text name)
apply-held (change k text) b b' environment name h = ground arith
