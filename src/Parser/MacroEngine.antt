-- ===== src/Parser/MacroEngine.antt =====
-- crates/ferritex-core/src/parser/macro_engine.rs: macros, environments and category code overrides,
-- each a stack of scopes of which a group copies the innermost. The head of a stack is the last
-- element of the `Vec`. `none` is the panic of an `expect` on an empty stack.
pub mod Commands
pub mod Groups
pub mod Globals
pub mod Expansion
pub mod Catcodes
mod Examples
use ferritex.Prelude.{
  ℕ, suc, ◌-◌, ◌<◌, Bool, true, false, Option, none, some, List, [], ◌∷◌, ◌++◌, map, Str, length,
  ltb, leb, get_elem?, if◌then◌else◌, nat_eq, list_eq,
}
use ferritex.Prelude.HashMap
use ferritex.Prelude.HashMap.{HashMap}
use ferritex.Parser.Token.{
  CatCode, Token, TokenKind, control_word, control_symbol, char_token, parameter_token,
}

pub record MacroDef : Type 0 where
  pub name : Str
  pub parameter_count : ℕ
  pub body : List Token
  pub protected : Bool

pub record EnvironmentDef : Type 0 where
  pub name : Str
  pub begin_tokens : List Token
  pub end_tokens : List Token
  pub parameter_count : ℕ

pub record MacroEngine : Type 0 where
  pub scope_stack : List (HashMap Str MacroDef)
  pub environment_scope_stack : List (HashMap Str EnvironmentDef)
  pub catcode_stack : List (HashMap ℕ CatCode)

-- `MacroEngine::default()`
abbrev pub new_engine : MacroEngine
new_engine = record {
  scope_stack = [] ∷ [];
  environment_scope_stack = [] ∷ [];
  catcode_stack = [] ∷ [];
}

module _ {ℓ} {S : Type ℓ} where
  -- `stack.push(stack.last().cloned().unwrap_or_default())`
  abbrev pub copy_last : S → List S → List S
  copy_last empty [] = empty ∷ []
  copy_last empty (s ∷ ss) = s ∷ s ∷ ss

  -- `if stack.len() > 1 { stack.pop() }`
  abbrev pub pop_inner : List S → List S
  pop_inner [] = []
  pop_inner (s ∷ []) = s ∷ []
  pop_inner (s ∷ t ∷ ss) = t ∷ ss

  -- `last_mut().expect(…)` with an update under it
  abbrev pub on_last : (S → S) → List S → Option (List S)
  on_last f [] = none
  on_last f (s ∷ ss) = some (f s ∷ ss)

  abbrev pub last : List S → Option S
  last [] = none
  last (s ∷ ss) = some s

unfoldable pub push_group : MacroEngine → MacroEngine
push_group e = record {
  scope_stack = copy_last [] e.scope_stack;
  environment_scope_stack = copy_last [] e.environment_scope_stack;
  catcode_stack = copy_last [] e.catcode_stack;
}

unfoldable pub pop_group : MacroEngine → MacroEngine
pop_group e = record {
  scope_stack = pop_inner e.scope_stack;
  environment_scope_stack = pop_inner e.environment_scope_stack;
  catcode_stack = pop_inner e.catcode_stack;
}

abbrev pub with_scopes : MacroEngine → List (HashMap Str MacroDef) → MacroEngine
with_scopes e ss = record e { scope_stack = ss }

unfoldable pub define_local : MacroEngine → Str → MacroDef → Option MacroEngine
define_local e name def = elim (on_last (λ s. HashMap.insert s name def) e.scope_stack) [
  | none ↦ none
  | some ss ↦ some (record e { scope_stack = ss })
]

unfoldable pub define_global : MacroEngine → Str → MacroDef → MacroEngine
define_global e name def = record e {
  scope_stack = map (λ s. HashMap.insert s name def) e.scope_stack;
}

unfoldable pub let_assign : MacroEngine → Str → Option MacroDef → Bool → Option MacroEngine
unfolding define_local define_global
let_assign e target (some def) true = some (define_global e target (record def { name = target }))
let_assign e target (some def) false = define_local e target (record def { name = target })
let_assign e target none true =
    some (record e { scope_stack = map (λ s. HashMap.remove s target) e.scope_stack })
let_assign e target none false = elim (on_last (λ s. HashMap.remove s target) e.scope_stack) [
  | none ↦ none
  | some ss ↦ some (record e { scope_stack = ss })
]

abbrev pub look {ℓ} : {V : Type ℓ} → List (HashMap Str V) → Str → Option V
look [] name = none
look (s ∷ ss) name = HashMap.get s name

unfoldable pub lookup : MacroEngine → Str → Option MacroDef
lookup e name = look e.scope_stack name

unfoldable pub define_environment : MacroEngine → Str → EnvironmentDef → Option MacroEngine
define_environment e name def =
    elim (on_last (λ s. HashMap.insert s name def) e.environment_scope_stack) [
      | none ↦ none
      | some ss ↦ some (record e { environment_scope_stack = ss })
    ]

unfoldable pub define_global_environment : MacroEngine → Str → EnvironmentDef → MacroEngine
define_global_environment e name def = record e {
  environment_scope_stack = map (λ s. HashMap.insert s name def) e.environment_scope_stack;
}

unfoldable pub lookup_environment : MacroEngine → Str → Option EnvironmentDef
lookup_environment e name = look e.environment_scope_stack name

-- The pieces that `expand` appends for one token of the body. `index` is a `u8`, so `saturating_sub`
-- is the subtraction of numbers; an argument that is missing adds nothing.
abbrev or_nothing : Option (List Token) → List Token
or_nothing none = []
or_nothing (some argument) = argument

abbrev expand_kind : List (List Token) → Token → TokenKind → List Token
expand_kind args t (parameter_token index) = or_nothing (get_elem? args (index - 1))
expand_kind args t (control_word name) = t ∷ []
expand_kind args t (control_symbol c) = t ∷ []
expand_kind args t (char_token c cat) = t ∷ []

expand_body : List (List Token) → List Token → List Token
expand_body args [] = []
expand_body args (t ∷ ts) = expand_kind args t t.kind ++ expand_body args ts

abbrev expand_def : List (List Token) → Option MacroDef → List Token
unfolding expand_body
expand_def args none = []
expand_def args (some def) = expand_body args def.body

unfoldable pub expand : MacroEngine → Str → List (List Token) → List Token
unfolding expand_body
expand e name args = expand_def args (lookup e name)

unfoldable pub set_catcode : MacroEngine → ℕ → CatCode → Option MacroEngine
set_catcode e char_code cat = elim (on_last (λ s. HashMap.insert s char_code cat) e.catcode_stack) [
  | none ↦ none
  | some ss ↦ some (record e { catcode_stack = ss })
]

-- `sort_by_key`, a stable sort
insert_by_key : ℕ × CatCode → List (ℕ × CatCode) → List (ℕ × CatCode)
insert_by_key x [] = x ∷ []
insert_by_key x (y ∷ ys) =
    let rest = insert_by_key x ys in if ltb y.0 x.0 then y ∷ rest else x ∷ y ∷ ys

sort_by_key : List (ℕ × CatCode) → List (ℕ × CatCode)
unfolding insert_by_key
sort_by_key [] = []
sort_by_key (x ∷ xs) = insert_by_key x (sort_by_key xs)

abbrev overrides : Option (HashMap ℕ CatCode) → Option (List (ℕ × CatCode))
unfolding sort_by_key
overrides none = none
overrides (some m) = some (sort_by_key m)

unfoldable pub get_catcode_overrides : MacroEngine → Option (List (ℕ × CatCode))
unfolding sort_by_key
get_catcode_overrides e = overrides (last e.catcode_stack)
