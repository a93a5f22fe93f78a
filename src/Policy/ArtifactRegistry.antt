-- ===== src/Policy/ArtifactRegistry.antt =====
-- crates/ferritex-core/src/policy/artifact_registry.rs: which output files a job may read back.
use ferritex.Prelude.{
  ℕ, ◌≡◌, refl, ap, ◌∙◌, sym, Bool-cases, inl, inr, Bool, true, false, ◌&&◌, Option, none, some,
  List, [], ◌∷◌, Str, ◌=?◌, list_eq, nat_eq, if◌then◌else◌, arith,
}
use ferritex.Prelude.HashMap
use ferritex.Prelude.HashMap.{HashMap}
use ferritex.Prelude.Order.{pair_eq}
use ferritex.Policy.{PathBuf, normalize_path, component_eq}

pub data ArtifactKind : Type 0 where
  auxiliary bibliography pdf : ArtifactKind
  other : Str → ArtifactKind

pub record OutputArtifactRecord : Type 0 where
  pub normalized_path : PathBuf
  pub produced_path : PathBuf
  pub primary_input : PathBuf
  pub kind : ArtifactKind
  pub jobname : Str
  pub produced_pass : ℕ

abbrev pub new_record : PathBuf → PathBuf → Str → ArtifactKind → ℕ → OutputArtifactRecord
new_record produced_path primary_input jobname kind produced_pass = record {
  normalized_path = normalize_path produced_path;
  produced_path = produced_path;
  primary_input = primary_input;
  kind = kind;
  jobname = jobname;
  produced_pass = produced_pass;
}

pub record OutputArtifactRegistry : Type 0 where
  pub active : Bool
  pub records : HashMap PathBuf OutputArtifactRecord

abbrev pub new_registry : OutputArtifactRegistry
new_registry = record { active = true; records = [] }

-- A record as `record_artifact` keeps it.
abbrev kept : OutputArtifactRecord → OutputArtifactRecord
kept r = record r {
  normalized_path = normalize_path r.produced_path;
  primary_input = normalize_path r.primary_input;
}

unfoldable pub record_artifact :
    OutputArtifactRegistry → OutputArtifactRecord → OutputArtifactRegistry
record_artifact g r = record {
  active = true;
  records = HashMap.insert g.records (normalize_path r.produced_path) (kept r);
}

abbrev pub is_of_job : Option OutputArtifactRecord → PathBuf → Str → Bool
is_of_job none input jobname = false
is_of_job (some r) input jobname = (r.primary_input =? input) && (r.jobname =? jobname)

unfoldable pub allow_readback : OutputArtifactRegistry → PathBuf → PathBuf → Str → Bool
allow_readback g path primary_input jobname =
    if g.active
    then is_of_job (HashMap.get g.records (normalize_path path)) (normalize_path primary_input)
        jobname
    else false

unfoldable pub invalidate : OutputArtifactRegistry → OutputArtifactRegistry
invalidate g = record { active = false; records = [] }

abbrev kept_option : Option OutputArtifactRecord → Option OutputArtifactRecord
kept_option none = none
kept_option (some r) = some (kept r)

pub data Event : Type 0 where
  recorded : OutputArtifactRecord → Event
  invalidated : Event

abbrev step : OutputArtifactRegistry → Event → OutputArtifactRegistry
step g (recorded r) = record_artifact g r
step g invalidated = invalidate g

-- The events with the latest first.
unfoldable pub run : List Event → OutputArtifactRegistry
run [] = new_registry
run (e ∷ earlier) = step (run earlier) e

-- The latest artifact produced at `path` since the registry was invalidated.
unfoldable pub latest : List Event → PathBuf → Option OutputArtifactRecord
latest [] path = none
latest (recorded r ∷ earlier) path =
    let before = latest earlier path in
    if normalize_path r.produced_path =? normalize_path path then some r else before
latest (invalidated ∷ earlier) path = none

abbrev pub produced_by : Option OutputArtifactRecord → PathBuf → Str → Bool
produced_by none input jobname = false
produced_by (some r) input jobname =
    (normalize_path r.primary_input =? normalize_path input) && (r.jobname =? jobname)

kept_if :
    (b : Bool) (r : OutputArtifactRecord) (o : Option OutputArtifactRecord)
    → (if b then some (kept r) else kept_option o) ≡ kept_option (if b then some r else o)
kept_if true r o = refl
kept_if false r o = refl

get-latest :
    (es : List Event) (path : PathBuf)
    → HashMap.get (run es).records (normalize_path path) ≡ kept_option (latest es path)
unfolding run latest record_artifact invalidate HashMap.get
get-latest [] path = refl
get-latest (recorded r ∷ es) path =
    HashMap.get-insert (run es).records (normalize_path r.produced_path) (kept r)
      (normalize_path path)
    ∙ ap (λ o. if normalize_path r.produced_path =? normalize_path path then some (kept r) else o)
        (get-latest es path)
    ∙ kept_if (normalize_path r.produced_path =? normalize_path path) r (latest es path)
get-latest (invalidated ∷ es) path = refl

inactive_latest :
    (es : List Event) (path : PathBuf) → (run es).active ≡ false → latest es path ≡ none
unfolding run latest record_artifact invalidate
inactive_latest [] path h = absurd (ground arith)
inactive_latest (recorded r ∷ es) path h = absurd (ground arith)
inactive_latest (invalidated ∷ es) path h = refl

kept_of_job :
    (o : Option OutputArtifactRecord) (input : PathBuf) (jobname : Str)
    → is_of_job (kept_option o) (normalize_path input) jobname ≡ produced_by o input jobname
kept_of_job none input jobname = refl
kept_of_job (some r) input jobname = refl

-- A job may read a file back if and only if, since the registry was last invalidated, an artifact was
-- recorded at that path and the latest one was produced by a job of that name from that input, with
-- paths compared as they are normalized.
pub readback_latest :
    (es : List Event) (path input : PathBuf) (jobname : Str)
    → allow_readback (run es) path input jobname ≡ produced_by (latest es path) input jobname
unfolding allow_readback
readback_latest es path input jobname = elim (Bool-cases (run es).active) [
  | inl on ↦ rw on (
      ap (λ o. is_of_job o (normalize_path input) jobname) (get-latest es path)
      ∙ kept_of_job (latest es path) input jobname)
  | inr off ↦ rw off (ap (λ o. produced_by o input jobname) (sym (inactive_latest es path off)))
]
