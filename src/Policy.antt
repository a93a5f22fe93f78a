-- ===== src/Policy.antt =====
-- crates/ferritex-core/src/policy/mod.rs: paths are compared after `.` and `..` are resolved, without
-- the file system. A path is the list of its components on Unix, where there is no prefix.
pub mod Normalize
pub mod PathAccess
pub mod ArtifactRegistry
mod Examples
use ferritex.Prelude.{
  ℕ, ◌≡◌, ◌↔◌, refl, sym, ap, ◌∙◌, Bool, true, false, not, List, [], ◌∷◌, ◌++◌, Str, Eq, ◌=?◌,
  eq_of_=?, =?_refl, list_eq, nat_eq, if◌then◌else◌, zero, suc,
}
use ferritex.Prelude.Order.{pair_eq}

pub data Component : Type 0 where
  root_dir cur_dir parent_dir : Component
  normal : Str → Component

abbrev pub component_parts : Component → ℕ × Str
component_parts root_dir = (0, [])
component_parts cur_dir = (1, [])
component_parts parent_dir = (2, [])
component_parts (normal s) = (3, s)

component_of_parts : ℕ × Str → Component
component_of_parts (zero, s) = root_dir
component_of_parts (suc zero, s) = cur_dir
component_of_parts (suc (suc zero), s) = parent_dir
component_of_parts (suc (suc (suc n)), s) = normal s

component_parts_back : (c : Component) → component_of_parts (component_parts c) ≡ c
unfolding component_of_parts
component_parts_back root_dir = refl
component_parts_back cur_dir = refl
component_parts_back parent_dir = refl
component_parts_back (normal s) = refl

pub component_beq_iff :
    (c d : Component) → ((component_parts c =? component_parts d) ≡ true) ↔ (c ≡ d)
component_beq_iff c d = (
  λ h. sym (component_parts_back c) ∙ ap component_of_parts (eq_of_=? h) ∙ component_parts_back d,
  λ h. ap (λ i. component_parts c =? component_parts i) (sym h) ∙ =?_refl (component_parts c),
)

instance abbrev pub component_eq : Eq Component
component_eq = record {
  beq = λ c d. component_parts c =? component_parts d;
  beq_iff = component_beq_iff;
}

abbrev pub PathBuf : Type 0
PathBuf = List Component

abbrev pub is_absolute : PathBuf → Bool
is_absolute (root_dir ∷ cs) = true
is_absolute (cur_dir ∷ cs) = false
is_absolute (parent_dir ∷ cs) = false
is_absolute (normal s ∷ cs) = false
is_absolute [] = false

-- The buffer of `normalize_path`, its last component first. `push` of the root, an absolute path,
-- replaces what the buffer holds.
abbrev pub pop_or_keep : Bool → List Component → List Component
pop_or_keep absolute [] = if absolute then [] else parent_dir ∷ []
pop_or_keep absolute (normal s ∷ buffer) = buffer
pop_or_keep absolute (root_dir ∷ buffer) =
    if absolute then root_dir ∷ buffer else parent_dir ∷ root_dir ∷ buffer
pop_or_keep absolute (cur_dir ∷ buffer) =
    if absolute then cur_dir ∷ buffer else parent_dir ∷ cur_dir ∷ buffer
pop_or_keep absolute (parent_dir ∷ buffer) =
    if absolute then parent_dir ∷ buffer else parent_dir ∷ parent_dir ∷ buffer

abbrev pub push_component : Bool → List Component → Component → List Component
push_component absolute buffer root_dir = root_dir ∷ []
push_component absolute buffer cur_dir = buffer
push_component absolute buffer parent_dir = pop_or_keep absolute buffer
push_component absolute buffer (normal s) = normal s ∷ buffer

unfoldable pub push_components : Bool → List Component → PathBuf → List Component
push_components absolute buffer [] = buffer
push_components absolute buffer (c ∷ cs) =
    push_components absolute (push_component absolute buffer c) cs

-- A buffer as a path.
unfoldable pub backwards : List Component → PathBuf → PathBuf
backwards [] path = path
backwards (c ∷ buffer) path = backwards buffer (c ∷ path)

abbrev pub or_default : Bool → PathBuf → PathBuf
or_default absolute [] = if absolute then root_dir ∷ [] else cur_dir ∷ []
or_default absolute (c ∷ cs) = c ∷ cs

unfoldable pub normalize_path : PathBuf → PathBuf
unfolding push_components backwards
normalize_path path =
    or_default (is_absolute path) (backwards (push_components (is_absolute path) [] path) [])
