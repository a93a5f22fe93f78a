-- ===== src/Parser/MacroEngine/Examples.antt =====
-- Tests of the macro engine, and its theorems at concrete inputs.
use ferritex.Prelude.{
  ℕ, ◌≡◌, refl, true, false, none, some, List, [], ◌∷◌, codes, list_beq, list_eq, nat_eq, ◌==◌,
  if◌then◌else◌,
}
use ferritex.Prelude.HashMap.{get, insert}
use ferritex.Parser.Token.{CatCode, active, Token, char_token, parameter_token, other}
use ferritex.Parser.MacroEngine.{
  MacroDef, MacroEngine, new_engine, push_group, pop_group, define_global, lookup, expand,
  set_catcode, get_catcode_overrides,
}
use ferritex.Parser.MacroEngine.Commands.{
  Command, begin, end, define, assign, catcode, run, IsValid, new_engine-IsValid, run-IsValid,
}
use ferritex.Parser.MacroEngine.Groups.{engine_group_restores}
use ferritex.Parser.MacroEngine.Globals.{global_definition_survives, global_let_undefines}
use ferritex.Parser.MacroEngine.Expansion.{Piece, verbatim, parameter, expand-body_of}
use ferritex.Parser.MacroEngine.Catcodes.{IsSorted, set-get_catcode}

abbrev char : ℕ → Token
char c = record { kind = char_token c other; line = 1; column = 1 }

abbrev param : ℕ → Token
param n = record { kind = parameter_token n; line = 1; column = 1 }

abbrev pair_macro : MacroDef
pair_macro = record {
  name = codes "pair";
  parameter_count = 2;
  body = param 2 ∷ char 43 ∷ param 1 ∷ param 3 ∷ [];
  protected = false;
}

abbrev plus_macro : MacroDef
plus_macro = record {
  name = codes "plus";
  parameter_count = 0;
  body = char 43 ∷ [];
  protected = false;
}

-- A group with local definitions and a group inside it.
abbrev body : List Command
body =
    define (codes "pair") pair_macro false
    ∷ begin
    ∷ assign (codes "pair") (some plus_macro) false
    ∷ catcode 64 active
    ∷ end
    ∷ []

abbrev defined : MacroEngine
defined = define_global new_engine (codes "pair") pair_macro

defined-IsValid : IsValid defined
unfolding define_global
defined-IsValid = record {
  occupied = new_engine-IsValid.occupied;
  environments = refl;
  catcodes = refl;
}

expand_pair :
    expand defined (codes "pair") ((char 97 ∷ []) ∷ (char 98 ∷ char 99 ∷ []) ∷ [])
    ≡ char 98 ∷ char 99 ∷ char 43 ∷ char 97 ∷ []
unfolding expand lookup define_global get insert list_beq
expand_pair = refl

run-IsValid_example : (e' : MacroEngine) × (run (end ∷ body) new_engine ≡ some e') × IsValid e'
run-IsValid_example = run-IsValid (end ∷ body) new_engine new_engine-IsValid

engine_group_restores_example :
    (e' : MacroEngine) × (run body (push_group defined) ≡ some e') × (pop_group e' ≡ defined)
engine_group_restores_example = engine_group_restores body defined defined-IsValid tt

global_definition_survives_example :
    (e' : MacroEngine) × (run (define (codes "plus") plus_macro true ∷ end ∷ body) defined
      ≡ some e')
    × (lookup e' (codes "plus") ≡ some plus_macro)
unfolding list_beq
global_definition_survives_example =
    global_definition_survives (codes "plus") plus_macro (end ∷ body) defined defined-IsValid
      (refl, (refl, tt))

global_let_undefines_example :
    (e' : MacroEngine) × (run (assign (codes "plus") none true ∷ end ∷ body) defined ≡ some e')
    × (lookup e' (codes "plus") ≡ none)
unfolding list_beq
global_let_undefines_example =
    global_let_undefines (codes "plus") (end ∷ body) defined defined-IsValid (refl, (refl, tt))

abbrev pair_pieces : List Piece
pair_pieces = parameter 1 1 1 ∷ verbatim (char 43 ∷ []) ∷ parameter 0 1 1 ∷ parameter 2 1 1 ∷ []

expand-body_of_example :
    expand defined (codes "pair") ((char 97 ∷ []) ∷ (char 98 ∷ []) ∷ [])
    ≡ char 98 ∷ char 43 ∷ char 97 ∷ []
unfolding define_global lookup get insert list_beq
expand-body_of_example =
    expand-body_of defined (codes "pair") pair_macro ((char 97 ∷ []) ∷ (char 98 ∷ []) ∷ [])
      pair_pieces refl refl ((tt, tt), tt)

set-get_catcode_example :
    (e' : MacroEngine) × (after : List (ℕ × CatCode)) × (before : List (ℕ × CatCode)) × (set_catcode
        new_engine 64 active
      ≡ some e')
    × (get_catcode_overrides e' ≡ some after)
    × (get_catcode_overrides new_engine ≡ some before)
    × IsSorted after
    × ((k : ℕ) → get after k ≡ (if 64 == k then some active else get before k))
set-get_catcode_example = set-get_catcode new_engine [] [] 64 active refl
