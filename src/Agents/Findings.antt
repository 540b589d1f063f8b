-- ===== src/Agents/Findings.antt =====
-- runner/report.go: the findings, the verdict, the replies and the artifacts that an agent hands over.
use trilha_runner.Prelude.{
  ℕ, ◌+◌, ◌==◌, Bool, true, false, ◌&&◌, ◌||◌, not, List, [], ◌∷◌, ◌⊎◌, inl, inr, Option, none,
  some, Text, codes, text_eq, is_empty, has_prefix, contains_byte, take, drop, if◌then◌else◌,
}

-- execution.Finding
pub record Finding : Type 0 where
  pub severity : Text
  pub path : Text
  pub line_start : ℕ
  pub line_end : ℕ
  pub title : Text
  pub why : Text
  pub repro : Text
  pub area : Text
  pub style : Text
  pub found_by : List Text

-- Artifact; `copy` is the content of the runner's own file at its path.
pub record Artifact : Type 0 where
  pub name : Text
  pub content_type : Text
  pub size : ℕ
  pub sha256 : Text
  pub path : Text
  pub copy : Text

-- agentReport; a map is a list of entries.
pub record Report : Type 0 where
  pub findings : List Finding
  pub verdict : Text
  pub replies : List (Text × Text)
  pub comments : List Text
  pub artifacts : List Artifact
  pub artifact_dir : Text
  pub sources : List Text
  pub full : Bool

-- A file that is named, when it is opened.
pub data Opened : Type 0 where
  unreadable : Text → Opened
  irregular : Opened
  regular : Text → Opened

-- The protocol's side, and the files.
pub record World : Type 0 where
  pub truncate : Text → ℕ → Text
  pub max_title : ℕ
  pub max_text : ℕ
  pub max_findings : ℕ
  pub max_reply : ℕ
  pub max_bytes : ℕ
  pub max_artifacts : ℕ
  pub validate : Finding → Option Text
  pub validate_artifact : Artifact → Option Text
  pub sha256 : Text → Text
  pub resolve : Text → Text ⊎ Text  -- filepath.EvalSymlinks: the error, or the path
  pub rel : Text → Text → Option Text  -- filepath.Rel
  pub open_file : Text → Opened
  pub write : Text → Text → Option Text  -- the error of the directory or of the file

-- What the agent hands over.
pub data Handed : Type 0 where
  finding : Option Finding → Handed
  verdict : Text → Handed
  reply : Text → Text → Handed
  artifact : Text → Text → Text → Handed  -- the name, the file and the content

-- filepath.Ext of a path with slashes.
unfoldable pub ext : Text → Text
unfolding contains_byte
ext [] = []
ext (c ∷ s) =
    let rest = ext s in
    if contains_byte s b'.' || contains_byte s b'/' then rest else if c == b'.' then c ∷ s else []

-- The slashes at the end are dropped.
unfoldable pub trim_slashes : Text → Text
trim_slashes [] = []
trim_slashes (c ∷ s) =
    let rest = trim_slashes s in if is_empty rest && c == b'/' then [] else c ∷ rest

-- What follows the last slash.
unfoldable pub last_part : Text → Text
unfolding contains_byte
last_part [] = []
last_part (c ∷ s) =
    let rest = last_part s in if contains_byte s b'/' then rest else if c == b'/' then s else c ∷ s

-- filepath.Base
unfoldable pub base : Text → Text
unfolding trim_slashes last_part
base path =
    let kept = trim_slashes path in
    if is_empty path then codes "." else if is_empty kept then codes "/" else last_part kept

-- artifactTypes: the content type, and the first bytes of an image.
unfoldable pub artifact_type : Text → Option (Text × Option Text)
unfolding text_eq
artifact_type extension =
    if text_eq extension (codes ".html")
    then some (codes "text/html", none)
    else if text_eq extension (codes ".md")
    then some (codes "text/markdown", none)
    else if text_eq extension (codes ".png")
    then some (codes "image/png", some (137 ∷ b'P' ∷ b'N' ∷ b'G' ∷ 13 ∷ 10 ∷ 26 ∷ 10 ∷ []))
    else if text_eq extension (codes ".jpg") || text_eq extension (codes ".jpeg")
    then some (codes "image/jpeg", some (255 ∷ 216 ∷ 255 ∷ []))
    else none

unfoldable pub has_name : Text → List Artifact → Bool
unfolding text_eq
has_name name [] = false
has_name name (a ∷ more) = text_eq a.name name || has_name name more

-- The last artifact of the name gives way to the entry.
unfoldable pub replace : Text → Artifact → List Artifact → List Artifact
unfolding has_name
replace name entry [] = []
replace name entry (a ∷ more) =
    let rest = replace name entry more in
    if has_name name more then a ∷ rest else if text_eq a.name name then entry ∷ more else a ∷ more

abbrev pub trim_dot : Text → Text
trim_dot path = if has_prefix path (codes "./") then drop 2 path else path

-- slices.Contains, and the loop of addReply
unfoldable pub contains_text : List Text → Text → Bool
unfolding text_eq
contains_text [] word = false
contains_text (t ∷ ts) word = text_eq t word || contains_text ts word

unfoldable pub put : Text → Text → List (Text × Text) → List (Text × Text)
unfolding text_eq
put id text [] = (id, text) ∷ []
put id text ((key, old) ∷ rest) =
    let later = put id text rest in if text_eq key id then (id, text) ∷ rest else (key, old) ∷ later

abbrev pub real_root : Text → Text ⊎ Text → Text
real_root root (inl e) = root
real_root root (inr real) = real

abbrev pub climbs : Option Text → Bool
climbs none = true
climbs (some path) = text_eq path (codes "..") || has_prefix path (codes "../")

-- The loop of readSource over the directories that a file may come from.
unfoldable pub from_source : World → List Text → Text → Bool
unfolding text_eq has_prefix
from_source w [] resolved = false
from_source w (root ∷ roots) resolved =
    (not (is_empty root) && not (climbs (w.rel (real_root root (w.resolve root)) resolved)))
    || from_source w roots resolved

abbrev pub read_opened : ℕ → Opened → Text ⊎ Text
read_opened limit (unreadable e) = inl e
read_opened limit irregular = inl (codes "not a regular file")
read_opened limit (regular content) = inr (take limit content)

unfoldable pub read_resolved : World → List Text → Text ⊎ Text → Text ⊎ Text
unfolding from_source
read_resolved w sources (inl e) = inl e
read_resolved w sources (inr resolved) =
    if from_source w sources resolved
    then read_opened (w.max_bytes + 1) (w.open_file resolved)
    else inl (codes "the file must be in the worktree or in $TRILHA_ARTIFACT_DIR")

-- readSource
unfoldable pub read_source : World → Report → Text → Text ⊎ Text
unfolding read_resolved
read_source w r source = read_resolved w r.sources (w.resolve source)
