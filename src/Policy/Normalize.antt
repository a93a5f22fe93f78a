-- ===== src/Policy/Normalize.antt =====
-- What `normalize_path` makes of an absolute path: the names that remain when it is walked.
use ferritex.Prelude.{◌≡◌, refl, ap, ◌∙◌, true, List, [], ◌∷◌, ◌++◌, map, Str}
use ferritex.Policy.{
  Component, root_dir, cur_dir, parent_dir, normal, PathBuf, push_components, backwards,
  normalize_path, or_default,
}

-- The root stands at no place of a path but the first.
abbrev HasNoRoot : PathBuf → Type 0
HasNoRoot [] = Unit
HasNoRoot (root_dir ∷ cs) = ⊥
HasNoRoot (cur_dir ∷ cs) = HasNoRoot cs
HasNoRoot (parent_dir ∷ cs) = HasNoRoot cs
HasNoRoot (normal s ∷ cs) = HasNoRoot cs

abbrev pub IsAbsolute : PathBuf → Type 0
IsAbsolute [] = ⊥
IsAbsolute (root_dir ∷ cs) = HasNoRoot cs
IsAbsolute (cur_dir ∷ cs) = ⊥
IsAbsolute (parent_dir ∷ cs) = ⊥
IsAbsolute (normal s ∷ cs) = ⊥

abbrev parent : List Str → List Str
parent [] = []
parent (s ∷ above) = above

-- The directories that one is in, the innermost first, when the components are followed from the
-- root, whose parent is the root.
unfoldable pub walk : List Str → PathBuf → List Str
walk above [] = above
walk above (root_dir ∷ cs) = walk [] cs
walk above (cur_dir ∷ cs) = walk above cs
walk above (parent_dir ∷ cs) = walk (parent above) cs
walk above (normal s ∷ cs) = walk (s ∷ above) cs

unfoldable pub outermost_first : List Str → List Str → List Str
outermost_first [] names = names
outermost_first (s ∷ above) names = outermost_first above (s ∷ names)

abbrev pub resolve : PathBuf → List Str
resolve path = outermost_first (walk [] path) []

abbrev buffer_of : List Str → List Component
buffer_of above = map normal above ++ root_dir ∷ []

push_components-walk :
    (cs : PathBuf) (above : List Str)
    → HasNoRoot cs
    → push_components true (buffer_of above) cs ≡ buffer_of (walk above cs)
unfolding push_components walk
push_components-walk [] above h = refl
push_components-walk (root_dir ∷ cs) above h = absurd h
push_components-walk (cur_dir ∷ cs) above h = push_components-walk cs above h
push_components-walk (parent_dir ∷ cs) [] h = push_components-walk cs [] h
push_components-walk (parent_dir ∷ cs) (s ∷ above) h = push_components-walk cs above h
push_components-walk (normal s ∷ cs) above h = push_components-walk cs (s ∷ above) h

backwards-buffer_of :
    (above names : List Str)
    → backwards (buffer_of above) (map normal names)
      ≡ root_dir ∷ map normal (outermost_first above names)
unfolding backwards outermost_first
backwards-buffer_of [] names = refl
backwards-buffer_of (s ∷ above) names = backwards-buffer_of above (s ∷ names)

-- An absolute path is normalized to the root and the names of the directories that its components
-- lead through, so that no `.` and no `..` is left in it.
pub normalize_path-resolve :
    (path : PathBuf) → IsAbsolute path → normalize_path path ≡ root_dir ∷ map normal (resolve path)
unfolding normalize_path push_components walk
normalize_path-resolve [] h = absurd h
normalize_path-resolve (root_dir ∷ cs) h =
    ap (λ buffer. or_default true (backwards buffer [])) (push_components-walk cs [] h)
    ∙ ap (or_default true) (backwards-buffer_of (walk [] cs) [])
normalize_path-resolve (cur_dir ∷ cs) h = absurd h
normalize_path-resolve (parent_dir ∷ cs) h = absurd h
normalize_path-resolve (normal s ∷ cs) h = absurd h
