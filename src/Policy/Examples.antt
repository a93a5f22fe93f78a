-- ===== src/Policy/Examples.antt =====
-- Tests of the policy, and its theorems at concrete inputs.
use ferritex.Prelude.{◌≡◌, ◌↔◌, refl, true, List, [], ◌∷◌, map, codes, list_eq, list_beq, nat_eq}
use ferritex.Prelude.HashMap.{get, insert}
use ferritex.Prelude.Order.{pair_eq, pair_beq}
use ferritex.Policy.{
  root_dir, parent_dir, normal, PathBuf, push_components, backwards, normalize_path, component_eq,
}
use ferritex.Policy.Normalize.{resolve, normalize_path-resolve}
use ferritex.Policy.PathAccess.{
  PathAccessPolicy, allowed, denied, starts_with, starts_with_any, check_read, check_write,
  IsUnderSome, access_iff,
}
use ferritex.Policy.ArtifactRegistry.{
  Event, recorded, invalidated, new_record, auxiliary, record_artifact, allow_readback, run, latest,
  produced_by, invalidate, readback_latest,
}

-- `/project/../secret`
abbrev escaping : PathBuf
escaping = root_dir ∷ normal (codes "project") ∷ parent_dir ∷ normal (codes "secret") ∷ []

abbrev project : PathBuf
project = root_dir ∷ normal (codes "project") ∷ []

abbrev policy : PathAccessPolicy
policy = record { allowed_read_dirs = project ∷ []; allowed_write_dirs = [] }

-- A test of mod.rs: `a/../..` is `..`.
relative_beyond_base :
    normalize_path (normal (codes "a") ∷ parent_dir ∷ parent_dir ∷ []) ≡ parent_dir ∷ []
unfolding normalize_path push_components backwards
relative_beyond_base = refl

escaping_denied : check_read policy escaping ≡ denied
unfolding normalize_path push_components backwards check_read starts_with starts_with_any list_beq
    pair_beq
escaping_denied = refl

normalize_path-resolve_example : normalize_path escaping ≡ root_dir ∷ map normal (resolve escaping)
normalize_path-resolve_example = normalize_path-resolve escaping tt

access_iff_example :
    ((check_read policy escaping ≡ allowed) ↔ IsUnderSome escaping policy.allowed_read_dirs)
    × ((check_write policy escaping ≡ allowed) ↔ IsUnderSome escaping policy.allowed_write_dirs)
access_iff_example = access_iff policy escaping tt (tt, tt) tt

abbrev events : List Event
events = recorded (new_record escaping project (codes "main") auxiliary 1) ∷ invalidated ∷ []

secret_readback :
    allow_readback (run events) (root_dir ∷ normal (codes "secret") ∷ []) project (codes "main")
    ≡ true
unfolding normalize_path push_components backwards run record_artifact allow_readback get insert
    list_beq pair_beq invalidate
secret_readback = refl

readback_latest_example :
    allow_readback (run events) escaping project (codes "main")
    ≡ produced_by (latest events escaping) project (codes "main")
readback_latest_example = readback_latest events escaping project (codes "main")
